-- ===== src/Runner/Pipeline/Locks.antt =====
-- The work of a job leaves the locks and the events alone, however it ends.
use csaf_trove.Base.{◌≡◌, refl, ◌∙◌, true, false, List}
use csaf_trove.Base.Text.{Text}
use csaf_trove.Base.Effect.{Result}
use csaf_trove.Jobs.{Timestamp}
use csaf_trove.Runner.World.{
  World, Action, Source, SyncState, SyncResult, JobKind, sync_job, revalidate_job, RetrievalFailure,
  ◌>>=◌, ◌>>◌, warn_only,
}
use csaf_trove.Runner.Snapshot.{Inputs, process_snapshot}
use csaf_trove.Runner.Snapshot.Moves.{Moves, bind-Moves, then-Moves, Moves-weaken}
use csaf_trove.Runner.Snapshot.Keeps.{
  AlwaysKeeps, call-Keeps, clock-Keeps, enter-Keeps, edit_job-Keeps, warn_only-Keeps, read-Keeps,
  registry-Keeps,
}
use csaf_trove.Runner.Pipeline.{
  save_sync_state, store_sync_state, advance_token, finish_sync, pipeline_steps, finally,
  cleanup_worktree, run_pipeline, process_and_clean, run_revalidation, run_kind, start_job,
}
use csaf_trove.Runner.Pipeline.Stays.{
  SameTokens, Stays, weak, process_snapshot-Stays, load_sync_state-Stays, sync_provider-Stays,
}

pub record SameLocks {D : Type 0} (w v : World D) : Type 0 where
  pub held : v.held ≡ w.held
  pub finished : v.finished ≡ w.finished

pub SameLocks-trans : {D : Type 0} (u v w : World D) → SameLocks u v → SameLocks v w → SameLocks u w
SameLocks-trans u v w h k = record { held = k.held ∙ h.held; finished = k.finished ∙ h.finished }

SameLocks-refl : {D : Type 0} (w : World D) → SameLocks w w
SameLocks-refl w = record { held = refl; finished = refl }

module _ {D : Type 0} where
  abbrev pub Quiet : {A : Type 0} → Action D A → Type 0
  Quiet m = Moves (λ w v. SameLocks w v) m

  stays : {A : Type 0} {m : Action D A} → Stays m → Quiet m
  stays {A} {m} =
      Moves-weaken (λ w v. SameTokens w v) (λ w v. SameLocks w v) m
        (λ w v h. record { held = h.held; finished = h.finished })

  keeps : {A : Type 0} {m : Action D A} → AlwaysKeeps m → Quiet m
  keeps h = stays (weak h)

  bind :
      {A B : Type 0} {m : Action D A} {f : A → Action D B}
      → Quiet m
      → ((a : A) → Quiet (f a))
      → Quiet (m >>= f)
  bind {m} {f} = bind-Moves (λ w v. SameLocks w v) SameLocks-trans SameLocks-refl m f

  pub next : {A B : Type 0} {m : Action D A} {k : Action D B} → Quiet m → Quiet k → Quiet (m >> k)
  next {m} {k} = then-Moves (λ w v. SameLocks w v) SameLocks-trans SameLocks-refl m k

module _ {D : Type 0} (inputs : Inputs D) where
  save-Quiet : (domain : Text) (s : SyncState) → Quiet (save_sync_state inputs domain s)
  unfolding save_sync_state store_sync_state
  save-Quiet domain s =
      next (keeps (call-Keeps _ _))
        (record { moves = λ w. record { held = refl; finished = refl } })

  advance_token-Quiet :
      (domain : Text) (started_at : Timestamp) → Quiet (advance_token inputs domain started_at)
  unfolding advance_token
  advance_token-Quiet domain started_at =
      bind (stays (load_sync_state-Stays inputs domain))
        (λ state. bind (keeps (clock-Keeps inputs)) (λ now. save-Quiet domain _))

  finish_sync-Quiet :
      (source : Source) (result : SyncResult) → Quiet (finish_sync inputs source result)
  unfolding finish_sync
  finish_sync-Quiet source result = next (keeps (edit_job-Keeps inputs source.domain _)) (
      next (keeps (enter-Keeps inputs source.domain _)) (
        next (keeps (call-Keeps _ _)) (
          next (keeps (warn_only-Keeps (call-Keeps _ _))) (
            next (keeps (call-Keeps _ _)) (
              next (stays (process_snapshot-Stays inputs source false _)) (
                next (keeps (call-Keeps _ _))
                  (next (keeps (call-Keeps _ _)) (advance_token-Quiet source.domain _))))))))

  pipeline_steps-Quiet : (source : Source) → Quiet (pipeline_steps inputs source)
  unfolding pipeline_steps
  pipeline_steps-Quiet source = next (keeps (warn_only-Keeps (call-Keeps _ _))) (
      next (keeps (enter-Keeps inputs source.domain _)) (
        next (keeps (call-Keeps _ _)) (
          next (keeps (enter-Keeps inputs source.domain _))
            (bind (stays (sync_provider-Stays inputs source)) (finish_sync-Quiet source)))))

  finally-Quiet :
      (domain : Text) (w : World D) (r : Result (Unit {0}) × World D)
      → SameLocks w r.1
      → SameLocks w (finally inputs (cleanup_worktree inputs domain) r).1
  unfolding cleanup_worktree finally warn_only
  finally-Quiet domain w (r, v) h =
      SameLocks-trans w v _ h ((keeps (warn_only-Keeps (call-Keeps domain _))).moves v)

  run_pipeline-Quiet : (source : Source) → Quiet (run_pipeline inputs source)
  unfolding run_pipeline
  run_pipeline-Quiet source = record {
    moves = λ w.
        finally-Quiet source.domain w (pipeline_steps inputs source w)
          ((pipeline_steps-Quiet source).moves w);
  }

  process_and_clean-Quiet :
      (source : Source) (failures : List RetrievalFailure)
      → Quiet (process_and_clean inputs source failures)
  unfolding process_and_clean
  process_and_clean-Quiet source failures = record {
    moves = λ w.
        finally-Quiet source.domain w (process_snapshot inputs source true failures w)
          ((stays (process_snapshot-Stays inputs source true failures)).moves w);
  }

  run_kind-Quiet : (kind : JobKind) (source : Source) → Quiet (run_kind inputs kind source)
  unfolding run_kind run_revalidation
  run_kind-Quiet sync_job source = run_pipeline-Quiet source
  run_kind-Quiet revalidate_job source =
      bind (keeps (call-Keeps _ _))
        (λ failures. next (process_and_clean-Quiet source failures) (keeps (call-Keeps _ _)))

  -- From the start of a job to the end of its run.
  pub started-Quiet :
      (source : Source) (kind : JobKind)
      → Quiet (start_job inputs source.domain kind >> run_kind inputs kind source)
  unfolding start_job
  started-Quiet source kind =
      next
        (bind (keeps (read-Keeps _))
          (λ last. bind (keeps (clock-Keeps inputs)) (λ now. keeps (registry-Keeps _))))
        (run_kind-Quiet kind source)
