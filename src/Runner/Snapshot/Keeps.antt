-- ===== src/Runner/Snapshot/Keeps.antt =====
-- The steps of a pass keep the sync states, the locks, the events, and what the checkpoints were
-- made from; only `summary_dirty` may be set.
use mathlib.Core.Option
use csaf_trove.Base.{
  ℕ, zero, suc, ◌≡◌, refl, ◌∙◌, Bool, true, false, Option, List, [], ◌∷◌, Bool-cases, Option-cases,
  inl, inr,
}
use csaf_trove.Base.Text.{Text, text_eq}
use csaf_trove.Base.Map
use csaf_trove.Base.Map.{Map}
use csaf_trove.Base.Effect.{Result}
use csaf_trove.Jobs.{PipelinePhase, JobStatus, Registry}
use csaf_trove.Storage.PathSet.{PathSet, batch}
use csaf_trove.Processing.Paths.{ProcessingCheckpoint, ProcessingSelection}
use csaf_trove.Runner.World.{
  World, Action, Call, Source, RetrievalFailure, call, ◌>>=◌, ◌>>◌, pure, read, branch, when,
  change_registry, warn_only, mark_dirty,
}
use csaf_trove.Runner.Snapshot.{
  Inputs, clock, on_page, enter, show_progress, edit_job, processing_checkpoint,
  include_recovered_downloads, check_downloads, recovered, delete_pages, clean_stored_results,
  run_selection, materialize_selection, validate_selection, missing_versions, record_histories,
  store_failures, wants_summary, write_summary, choose_inputs, process_selection,
}
use csaf_trove.Runner.Snapshot.Moves.{
  Moves, bind-Moves, then-Moves, when-Moves, branch-Moves, read-Moves, warn_only-Moves,
}

-- What a checkpoint was made from.
abbrev pub made_from : ProcessingCheckpoint → Text × Text
made_from c = (c.commit_id, c.fingerprint)

abbrev pub stored_inputs : {D : Type 0} → Text → World D → Option (Text × Text)
stored_inputs domain w = Option.map made_from (Map.get domain w.checkpoints)

pub record Keeps {D : Type 0} (w v : World D) : Type 0 where
  pub sync_states : v.sync_states ≡ w.sync_states
  pub held : v.held ≡ w.held
  pub finished : v.finished ≡ w.finished
  pub stored : (domain : Text) → stored_inputs domain v ≡ stored_inputs domain w

pub Keeps-trans : {D : Type 0} (u v w : World D) → Keeps u v → Keeps v w → Keeps u w
Keeps-trans u v w h k = record {
  sync_states = k.sync_states ∙ h.sync_states;
  held = k.held ∙ h.held;
  finished = k.finished ∙ h.finished;
  stored = λ domain. k.stored domain ∙ h.stored domain;
}

pub Keeps-refl : {D : Type 0} (w : World D) → Keeps w w
Keeps-refl w = record { sync_states = refl; held = refl; finished = refl; stored = λ domain. refl }

map-mark_dirty :
    (domain other : Text) (dirtied : Bool) (cs : Map ProcessingCheckpoint)
    → Option.map made_from (Map.get other (mark_dirty domain dirtied cs))
      ≡ Option.map made_from (Map.get other cs)
map-mark_dirty domain other false cs = refl
map-mark_dirty domain other true cs =
    rw (Map.get-modify domain other (λ c. record c { summary_dirty = true }) cs)
      (elim (Bool-cases (text_eq domain other)) [
        | inl same ↦ rw same (elim (Option-cases (Map.get other cs)) [
          | inl missing ↦ rw missing
          | inr (c, found) ↦ rw found
        ])
        | inr differs ↦ rw differs
      ])

module _ {D : Type 0} where
  abbrev pub AlwaysKeeps : {A : Type 0} → Action D A → Type 0
  AlwaysKeeps m = Moves (λ w v. Keeps w v) m

  pub bind :
      {A B : Type 0} {m : Action D A} {f : A → Action D B}
      → AlwaysKeeps m
      → ((a : A) → AlwaysKeeps (f a))
      → AlwaysKeeps (m >>= f)
  bind {m} {f} = bind-Moves (λ w v. Keeps w v) Keeps-trans Keeps-refl m f

  pub next :
      {A B : Type 0} {m : Action D A} {k : Action D B}
      → AlwaysKeeps m
      → AlwaysKeeps k
      → AlwaysKeeps (m >> k)
  next {m} {k} = then-Moves (λ w v. Keeps w v) Keeps-trans Keeps-refl m k

  pub call-Keeps : {A : Type 0} (domain : Text) (c : Call D A) → AlwaysKeeps (call domain c)
  unfolding call
  call-Keeps domain c = record {
    moves = λ w. record {
      sync_states = refl;
      held = refl;
      finished = refl;
      stored = λ other. map-mark_dirty domain other (c w.rest).dirtied w.checkpoints;
    };
  }

  pub registry-Keeps : (f : Registry → Registry) → AlwaysKeeps (change_registry f)
  unfolding change_registry
  registry-Keeps f = record {
    moves =
        λ w. record { sync_states = refl; held = refl; finished = refl; stored = λ domain. refl };
  }

  pub read-Keeps : {A : Type 0} (f : World D → Result A) → AlwaysKeeps (read f)
  read-Keeps f = read-Moves (λ w v. Keeps w v) Keeps-trans Keeps-refl f

  pub pure-Keeps : {A : Type 0} (a : A) → AlwaysKeeps (pure a)
  unfolding pure
  pure-Keeps a = read-Keeps _

  pub when-Keeps : (b : Bool) {m : Action D Unit} → AlwaysKeeps m → AlwaysKeeps (when b m)
  when-Keeps b {m} = when-Moves (λ w v. Keeps w v) Keeps-trans Keeps-refl b m

  pub branch-Keeps :
      {A : Type 0} (b : Bool) {m k : Action D A}
      → AlwaysKeeps m
      → AlwaysKeeps k
      → AlwaysKeeps (branch b m k)
  branch-Keeps b {m} {k} = branch-Moves (λ w v. Keeps w v) Keeps-trans Keeps-refl b m k

  pub warn_only-Keeps : {A : Type 0} {m : Action D A} → AlwaysKeeps m → AlwaysKeeps (warn_only m)
  warn_only-Keeps {A} {m} = warn_only-Moves (λ w v. Keeps w v) Keeps-trans Keeps-refl m

module _ {D : Type 0} (inputs : Inputs D) where
  pub on_page-Keeps :
      {A : Type 0} (urls : List Text) {m k : Action D A}
      → AlwaysKeeps m
      → AlwaysKeeps k
      → AlwaysKeeps (on_page inputs urls m k)
  on_page-Keeps [] h g = h
  on_page-Keeps (url ∷ urls) h g = g

  pub clock-Keeps : AlwaysKeeps (clock inputs)
  unfolding clock
  clock-Keeps = record {
    moves =
        λ w. record { sync_states = refl; held = refl; finished = refl; stored = λ domain. refl };
  }

  pub enter-Keeps :
      (domain : Text) (phase : PipelinePhase) → AlwaysKeeps (enter inputs domain phase)
  unfolding enter
  enter-Keeps domain phase = bind clock-Keeps (λ now. (registry-Keeps _))

  pub edit_job-Keeps :
      (domain : Text) (f : JobStatus → JobStatus) → AlwaysKeeps (edit_job inputs domain f)
  unfolding edit_job
  edit_job-Keeps domain f = (registry-Keeps _)

  show_progress-Keeps :
      (domain : Text) (current total : ℕ) → AlwaysKeeps (show_progress inputs domain current total)
  unfolding show_progress
  show_progress-Keeps domain current total = (registry-Keeps _)

  pub processing_checkpoint-Keeps :
      (domain : Text) → AlwaysKeeps (processing_checkpoint inputs domain)
  unfolding processing_checkpoint
  processing_checkpoint-Keeps domain = next (call-Keeps _ _) (read-Keeps _)

  include-Keeps :
      (domain : Text) (urls : List Text) (selection : ProcessingSelection)
      → AlwaysKeeps (include_recovered_downloads inputs domain urls selection)
  unfolding include_recovered_downloads
  include-Keeps domain urls selection = branch-Keeps _ (pure-Keeps _) (read-Keeps _)

  check_downloads-Keeps :
      (fuel : ℕ) (domain cursor : Text) (checked : ℕ) (selection : ProcessingSelection)
      → AlwaysKeeps (check_downloads inputs fuel domain cursor checked selection)
  unfolding check_downloads
  check_downloads-Keeps zero domain cursor checked selection = (read-Keeps _)
  check_downloads-Keeps (suc fuel) domain cursor checked selection = bind (call-Keeps _ _) (λ urls.
      on_page-Keeps urls (pure-Keeps _) (
        bind (include-Keeps domain urls selection) (λ included.
          next (show_progress-Keeps domain _ _) (check_downloads-Keeps fuel domain _ _ included))))

  recovered-Keeps :
      (domain : Text) (selection : ProcessingSelection)
      → AlwaysKeeps (recovered inputs domain selection)
  unfolding recovered
  recovered-Keeps domain selection =
      branch-Keeps _ (pure-Keeps _) (check_downloads-Keeps inputs.pages domain [] 0 selection)

  delete_pages-Keeps :
      (fuel : ℕ) (domain : Text) (set : PathSet) (cursor : Text) (deleted : ℕ)
      → AlwaysKeeps (delete_pages inputs fuel domain set cursor deleted)
  unfolding delete_pages
  delete_pages-Keeps zero domain set cursor deleted = (read-Keeps _)
  delete_pages-Keeps (suc fuel) domain set cursor deleted =
      on_page-Keeps (batch cursor set) (pure-Keeps _) (
        next (call-Keeps _ _)
          (next (show_progress-Keeps domain _ _) (delete_pages-Keeps fuel domain set _ _)))

  clean_stored_results-Keeps :
      (domain : Text) (selection : ProcessingSelection)
      → AlwaysKeeps (clean_stored_results inputs domain selection)
  unfolding clean_stored_results
  clean_stored_results-Keeps domain selection =
      branch-Keeps _ (call-Keeps _ _) (delete_pages-Keeps _ domain selection.deleted [] 0)

  materialize-Keeps :
      (domain : Text) (selection : ProcessingSelection)
      → AlwaysKeeps (materialize_selection inputs domain selection)
  unfolding materialize_selection
  materialize-Keeps domain selection = branch-Keeps _ (call-Keeps _ _) (pure-Keeps _)

  validate-Keeps :
      (source : Source) (count : ℕ) → AlwaysKeeps (validate_selection inputs source count)
  unfolding validate_selection
  validate-Keeps source count = when-Keeps _ (next (enter-Keeps source.domain _) (call-Keeps _ _))

  record_histories-Keeps :
      (domain : Text) (previous : Option ProcessingCheckpoint) (selection : ProcessingSelection)
      → AlwaysKeeps (record_histories inputs domain previous selection)
  unfolding record_histories missing_versions
  record_histories-Keeps domain previous selection =
      bind (branch-Keeps _ (pure-Keeps _) (call-Keeps _ _))
        (λ backfill. when-Keeps _ (next (enter-Keeps domain _) (call-Keeps _ _)))

  store_failures-Keeps :
      (domain : Text) (failures : List RetrievalFailure)
      → AlwaysKeeps (store_failures inputs domain failures)
  unfolding store_failures
  store_failures-Keeps domain [] = (pure-Keeps _)
  store_failures-Keeps domain (f ∷ fs) = (call-Keeps _ _)

  wants_summary-Keeps :
      (domain : Text) (changed : Bool) → AlwaysKeeps (wants_summary inputs domain changed)
  unfolding wants_summary
  wants_summary-Keeps domain true = (pure-Keeps _)
  wants_summary-Keeps domain false = bind (call-Keeps _ _) (λ stored. (pure-Keeps _))

  write_summary-Keeps :
      (domain : Text) (changed : Bool) → AlwaysKeeps (write_summary inputs domain changed)
  unfolding write_summary
  write_summary-Keeps domain changed = bind (wants_summary-Keeps domain changed) (λ wanted.
      when-Keeps _
        (next (enter-Keeps domain _) (bind (call-Keeps _ _) (λ built. (call-Keeps _ _)))))

  pub choose_inputs-Keeps :
      (source : Source) (previous : Option ProcessingCheckpoint) (force_full : Bool)
      → AlwaysKeeps (choose_inputs inputs source previous force_full)
  unfolding choose_inputs run_selection
  choose_inputs-Keeps source previous force_full = bind (read-Keeps _) (λ identity.
      next (enter-Keeps source.domain _) (
        next (call-Keeps _ _) (
          next (enter-Keeps source.domain _) (
            bind (call-Keeps _ _) (λ chosen.
              next (enter-Keeps source.domain _) (recovered-Keeps source.domain chosen))))))

  pub process_selection-Keeps :
      (source : Source) (previous : Option ProcessingCheckpoint) (failures : List RetrievalFailure)
      (selection : ProcessingSelection)
      → AlwaysKeeps (process_selection inputs source previous failures selection)
  unfolding process_selection
  process_selection-Keeps source previous failures selection = next (enter-Keeps source.domain _) (
      next (call-Keeps _ _) (
        next (enter-Keeps source.domain _) (
          bind (materialize-Keeps source.domain selection) (λ count.
            next (enter-Keeps source.domain _) (
              next (clean_stored_results-Keeps source.domain selection) (
                next (validate-Keeps source count) (
                  next (record_histories-Keeps source.domain previous selection) (
                    bind (store_failures-Keeps source.domain failures) (λ failed.
                      next (write_summary-Keeps source.domain _) (
                        next (enter-Keeps source.domain _) (
                          next (call-Keeps _ _) (
                            bind (call-Keeps _ _)
                              (λ total. edit_job-Keeps source.domain _)))))))))))))
