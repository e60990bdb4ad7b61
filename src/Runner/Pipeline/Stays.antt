-- ===== src/Runner/Pipeline/Stays.antt =====
-- The steps of the pipeline that leave the sync states, the locks and the events as they are, and
-- those that do when they fail.
use csaf_trove.Base.{◌≡◌, refl, ◌∙◌, Bool, false, List}
use csaf_trove.Base.Text.{Text}
use csaf_trove.Base.Effect.{Result}
use csaf_trove.Jobs.{Timestamp}
use csaf_trove.Runner.World.{
  World, Action, Call, Source, SyncState, SyncResult, RetrievalFailure, call, ◌>>=◌, ◌>>◌, pure,
  read, branch, when,
}
use csaf_trove.Runner.Snapshot.{
  Inputs, clear_processing_checkpoint, save_processing_checkpoint, process_snapshot,
}
use csaf_trove.Runner.Snapshot.Moves.{
  Moves, bind-Moves, then-Moves, branch-Moves, when-Moves, Moves-weaken,
}
use csaf_trove.Runner.Snapshot.Keeps.{
  Keeps, AlwaysKeeps, call-Keeps, clock-Keeps, enter-Keeps, edit_job-Keeps, read-Keeps,
  warn_only-Keeps, processing_checkpoint-Keeps, choose_inputs-Keeps, process_selection-Keeps,
}
use csaf_trove.Runner.Snapshot.Outcomes.{Fails, bind-Fails, next-Fails, total-Fails}
use csaf_trove.Runner.Pipeline.{
  load_sync_state, save_sync_state, store_sync_state, effective_token, urls_to_retry, sync_provider,
  advance_token, finish_sync, pipeline_steps,
}

-- The sync states, locks and events stay.
pub record SameTokens {D : Type 0} (w v : World D) : Type 0 where
  pub sync_states : v.sync_states ≡ w.sync_states
  pub held : v.held ≡ w.held
  pub finished : v.finished ≡ w.finished

pub SameTokens-trans :
    {D : Type 0} (u v w : World D) → SameTokens u v → SameTokens v w → SameTokens u w
SameTokens-trans u v w h k = record {
  sync_states = k.sync_states ∙ h.sync_states;
  held = k.held ∙ h.held;
  finished = k.finished ∙ h.finished;
}

pub SameTokens-refl : {D : Type 0} (w : World D) → SameTokens w w
SameTokens-refl w = record { sync_states = refl; held = refl; finished = refl }

module _ {D : Type 0} where
  abbrev pub Stays : {A : Type 0} → Action D A → Type 0
  Stays m = Moves (λ w v. SameTokens w v) m

  pub weak : {A : Type 0} {m : Action D A} → AlwaysKeeps m → Stays m
  weak {A} {m} =
      Moves-weaken (λ w v. Keeps w v) (λ w v. SameTokens w v) m
        (λ w v h. record { sync_states = h.sync_states; held = h.held; finished = h.finished })

  pub bind :
      {A B : Type 0} {m : Action D A} {f : A → Action D B}
      → Stays m
      → ((a : A) → Stays (f a))
      → Stays (m >>= f)
  bind {m} {f} = bind-Moves (λ w v. SameTokens w v) SameTokens-trans SameTokens-refl m f

  pub next : {A B : Type 0} {m : Action D A} {k : Action D B} → Stays m → Stays k → Stays (m >> k)
  next {m} {k} = then-Moves (λ w v. SameTokens w v) SameTokens-trans SameTokens-refl m k

  pub either : {A : Type 0} (b : Bool) {m k : Action D A} → Stays m → Stays k → Stays (branch b m k)
  either b {m} {k} = branch-Moves (λ w v. SameTokens w v) SameTokens-trans SameTokens-refl b m k

  pub maybe : (b : Bool) {m : Action D Unit} → Stays m → Stays (when b m)
  maybe b {m} = when-Moves (λ w v. SameTokens w v) SameTokens-trans SameTokens-refl b m

  pub called : {A : Type 0} (domain : Text) (c : Call D A) → Stays (call domain c)
  called domain c = weak (call-Keeps domain c)

  pub told : {A : Type 0} (f : World D → Result A) → Stays (read f)
  told f = weak (read-Keeps f)

  abbrev pub FailsSame : {A : Type 0} → Action D A → Type 0
  FailsSame m = Fails (λ w v. SameTokens w v) m

  then_fails :
      {A B : Type 0} {m : Action D A} {k : Action D B} → Stays m → FailsSame k → FailsSame (m >> k)
  then_fails {m} {k} = next-Fails (λ w v. SameTokens w v) SameTokens-trans m k

  bind_fails :
      {A B : Type 0} {m : Action D A} {f : A → Action D B}
      → Stays m
      → ((a : A) → FailsSame (f a))
      → FailsSame (m >>= f)
  bind_fails {m} {f} = bind-Fails (λ w v. SameTokens w v) SameTokens-trans m f

module _ {D : Type 0} (inputs : Inputs D) where
  pub process_snapshot-Stays :
      (source : Source) (force_full : Bool) (failures : List RetrievalFailure)
      → Stays (process_snapshot inputs source force_full failures)
  unfolding process_snapshot clear_processing_checkpoint save_processing_checkpoint
  process_snapshot-Stays source force_full failures =
      bind (weak (processing_checkpoint-Keeps inputs source.domain)) (λ previous.
        next
          (maybe _ (
            next (called _ _) (record {
              moves = λ w. record { sync_states = refl; held = refl; finished = refl };
            })))
          (bind (weak (choose_inputs-Keeps inputs source previous force_full)) (λ selection.
            next (weak (process_selection-Keeps inputs source previous failures selection)) (
              next (called _ _) (record {
                moves = λ w. record { sync_states = refl; held = refl; finished = refl };
              })))))

  pub load_sync_state-Stays : (domain : Text) → Stays (load_sync_state inputs domain)
  unfolding load_sync_state
  load_sync_state-Stays domain = next (called _ _) (told _)

  pub sync_provider-Stays : (source : Source) → Stays (sync_provider inputs source)
  unfolding sync_provider effective_token urls_to_retry pure
  sync_provider-Stays source = bind (weak (clock-Keeps inputs)) (λ started_at.
      bind (load_sync_state-Stays source.domain) (λ state.
        bind (either _ (bind (called _ _) (λ count. told _)) (told _)) (λ token.
          bind (either _ (bind (called _ _) (λ failures. told _)) (told _))
            (λ retry. bind (called _ _) (λ walked. told _)))))

  save-FailsSame : (domain : Text) (s : SyncState) → FailsSame (save_sync_state inputs domain s)
  unfolding save_sync_state store_sync_state
  save-FailsSame domain s =
      then_fails (called _ _) (total-Fails (λ w v. SameTokens w v) _ (λ w. (tt, _, refl)))

  pub advance_token-FailsSame :
      (domain : Text) (started_at : Timestamp) → FailsSame (advance_token inputs domain started_at)
  unfolding advance_token
  advance_token-FailsSame domain started_at =
      bind_fails (load_sync_state-Stays domain)
        (λ state. bind_fails (weak (clock-Keeps inputs)) (λ now. save-FailsSame domain _))

  finish_sync-FailsSame :
      (source : Source) (result : SyncResult) → FailsSame (finish_sync inputs source result)
  unfolding finish_sync
  finish_sync-FailsSame source result = then_fails (weak (edit_job-Keeps inputs source.domain _)) (
      then_fails (weak (enter-Keeps inputs source.domain _)) (
        then_fails (called _ _) (
          then_fails (weak (warn_only-Keeps (call-Keeps _ _))) (
            then_fails (called _ _) (
              then_fails (process_snapshot-Stays source false _) (
                then_fails (called _ _)
                  (then_fails (called _ _) (advance_token-FailsSame source.domain _))))))))

  pub pipeline_steps-FailsSame : (source : Source) → FailsSame (pipeline_steps inputs source)
  unfolding pipeline_steps
  pipeline_steps-FailsSame source = then_fails (weak (warn_only-Keeps (call-Keeps _ _))) (
      then_fails (weak (enter-Keeps inputs source.domain _)) (
        then_fails (called _ _) (
          then_fails (weak (enter-Keeps inputs source.domain _))
            (bind_fails (sync_provider-Stays source) (finish_sync-FailsSame source)))))
