-- ===== src/Runner/Snapshot.antt =====
-- `process_snapshot` of server/src/scheduler/runner.rs, with `include_recovered_downloads` and
-- `materialize_processing_with_progress` of server/src/storage/git_processing.rs, and the
-- checkpoint of server/src/storage/processing.rs. Log lines and timings are left out.
pub mod Moves
pub mod Keeps
pub mod Outcomes
pub mod Checkpoints
pub mod Recovered
pub mod Published
pub mod Resumed
use csaf_trove.Base.{
  ℕ, zero, suc, ◌+◌, Bool, true, false, ◌||◌, ◌&&◌, not, Option, none, some, List, [], ◌∷◌, length,
  ltb, is_some, last?, if◌then◌else◌,
}
use csaf_trove.Base.Text.{Text, bytes}
use csaf_trove.Base.Map
use csaf_trove.Base.Map.{Map}
use csaf_trove.Base.Effect.{Result, ok, err}
use csaf_trove.Jobs.{
  PipelinePhase, JobStatus, Registry, Timestamp, update_job_phase, set_phase_progress,
  clean_selection, select_inputs, check_recovered_downloads, clean_validation_files,
  count_validation_files, clean_results, validate, version_counts, summary, report,
}
use csaf_trove.Jobs.History.{Report}
use csaf_trove.Storage.PathSet.{PathSet, insert_path, is_empty, batch, advance}
use csaf_trove.Storage.TreeDiff.Repository.{Repository}
use csaf_trove.Storage.TreeDiff.Compare.{out_of_levels}
use csaf_trove.Processing.Paths.{ProcessingCheckpoint, ProcessingSelection}
use csaf_trove.Processing.Select.{Digests, select_processing}
use csaf_trove.Runner.World.{
  World, Action, Call, Answer, Services, Source, RetrievalFailure, call, continue, ◌>>=◌, ◌>>◌,
  pure, read, branch, when, change_registry,
}

-- What a pass takes from the libraries: the digests, the repository of a provider, the parsing of
-- URLs, the extraction of files, and the fuel of the loops. `commits`, `levels` and `pages` bound
-- the history, the nesting of directories, and the pages of failed downloads.
pub record Inputs (D : Type 0) : Type 0 where
  pub services : Services D
  pub digests : Digests
  pub repository : Text → D → Repository
  -- The progress that the selection reports.
  pub selection_reports : Text → D → List Report
  pub url_to_git_path : Text → Result (Option Text)
  pub materialize : Text → ProcessingSelection → Call D ℕ
  pub commits : ℕ
  pub levels : ℕ
  pub pages : ℕ

module _ {D : Type 0} (inputs : Inputs D) where
  -- The clock always answers.
  unfoldable pub clock : Action D Timestamp
  clock w = (
    ok (inputs.services.now_utc w.rest).0,
    record w { rest = (inputs.services.now_utc w.rest).1 },
  )

  unfoldable pub enter : Text → PipelinePhase → Action D Unit
  enter domain phase = do now ← clock; change_registry (update_job_phase now domain phase)

  unfoldable pub show_progress : Text → ℕ → ℕ → Action D Unit
  show_progress domain current total = change_registry (set_phase_progress domain current total)

  -- `if let Some(job) = state.jobs.write().await.get_mut(domain)`, which notifies nobody.
  unfoldable pub edit_job : Text → (JobStatus → JobStatus) → Action D Unit
  edit_job domain f = change_registry (λ r. record r { jobs = Map.modify domain f r.jobs })

  -- `Storage::processing_checkpoint`
  unfoldable pub processing_checkpoint : Text → Action D (Option ProcessingCheckpoint)
  processing_checkpoint domain = do
    call domain (inputs.services.access domain)
    read (λ w. ok (Map.get domain w.checkpoints))

  -- `Storage::clear_processing_checkpoint`
  unfoldable pub clear_processing_checkpoint : Text → Action D Unit
  clear_processing_checkpoint domain = do
    call domain (inputs.services.access domain)
    λ w. (ok tt, record w { checkpoints = Map.remove domain w.checkpoints })

  -- `Storage::save_processing_checkpoint`, which stores `summary_dirty` as 0.
  unfoldable pub save_processing_checkpoint : Text → ProcessingCheckpoint → Action D Unit
  save_processing_checkpoint domain checkpoint = do
    call domain (inputs.services.access domain)
    λ w. (
      ok tt,
      record w {
        checkpoints = Map.insert domain (record checkpoint { summary_dirty = false }) w.checkpoints;
      },
    )

  -- The body of the loop of `include_recovered_downloads` on the path of a URL.
  unfoldable pub include_path : Text → Option Text → D → ProcessingSelection → ProcessingSelection
  include_path domain none d selection = selection
  include_path domain (some path) d selection =
      if (inputs.services.downloaded domain path d)
      then record selection { advisories = insert_path path selection.advisories }
      else selection

  unfoldable pub include_urls :
      Text → List Text → D → ProcessingSelection → Result ProcessingSelection
  include_urls domain [] d selection = ok selection
  include_urls domain (url ∷ urls) d selection = elim (inputs.url_to_git_path url) [
    | ok path ↦ include_urls domain urls d (include_path domain path d selection)
    | err e ↦ err e
  ]

  unfoldable pub include_recovered_downloads :
      Text → List Text → ProcessingSelection → Action D ProcessingSelection
  include_recovered_downloads domain urls selection =
      branch selection.full (pure selection) (read (λ w. include_urls domain urls w.rest selection))

  -- A loop ends at an empty page.
  abbrev pub on_page : {A : Type 0} → List Text → Action D A → Action D A → Action D A
  on_page [] done more = done
  on_page (url ∷ urls) done more = more

  -- The loop over the pages of failed downloads.
  unfoldable pub check_downloads :
      ℕ → Text → Text → ℕ → ProcessingSelection → Action D ProcessingSelection
  check_downloads zero domain cursor checked selection = read (λ w. err out_of_levels)
  check_downloads (suc fuel) domain cursor checked selection = do
    urls ← call domain (inputs.services.retrieval_error_urls domain cursor)
    on_page urls (pure selection) (do
      included ← include_recovered_downloads domain urls selection
      show_progress domain (checked + length urls) 0
      check_downloads fuel domain (advance cursor (last? urls)) (checked + length urls) included)

  unfoldable pub recovered : Text → ProcessingSelection → Action D ProcessingSelection
  recovered domain selection =
      branch selection.full (pure selection) (check_downloads inputs.pages domain [] 0 selection)

  -- The loop over the pages of deleted URLs.
  unfoldable pub delete_pages : ℕ → Text → PathSet → Text → ℕ → Action D Unit
  delete_pages zero domain set cursor deleted = read (λ w. err out_of_levels)
  delete_pages (suc fuel) domain set cursor deleted =
      let urls = batch cursor set in
      on_page urls (pure tt) (do
        call domain (inputs.services.delete_document_urls domain urls)
        show_progress domain (deleted + length urls) set.len
        delete_pages fuel domain set (advance cursor (last? urls)) (deleted + length urls))

  -- Results go with a baseline, or page by page.
  unfoldable pub clean_stored_results : Text → ProcessingSelection → Action D Unit
  clean_stored_results domain selection =
      branch selection.baseline (call domain (inputs.services.delete_all_documents domain))
        (delete_pages (suc (length selection.deleted.rows)) domain selection.deleted [] 0)

  -- The selection runs on the repository as it stands.
  unfoldable pub run_selection :
      Source → Option ProcessingCheckpoint → Bool → Text → Action D ProcessingSelection
  run_selection source previous force_full identity = call source.domain (λ d. record {
    result =
        select_processing inputs.digests inputs.commits inputs.levels
          (inputs.repository source.domain d) previous identity force_full;
    reports = inputs.selection_reports source.domain d;
    dirtied = false;
    rest = d;
  })

  unfoldable pub materialize_selection : Text → ProcessingSelection → Action D ℕ
  materialize_selection domain selection =
      branch ((selection.full || not (is_empty selection.advisories)))
        (call domain (inputs.materialize domain selection)) (pure 0)

  unfoldable pub validate_selection : Source → ℕ → Action D Unit
  validate_selection source count = when (ltb 0 count) (do
    enter source.domain validate
    call source.domain (inputs.services.validate_provider source count))

  abbrev since_commit : Bool → Option ProcessingCheckpoint → Option Text
  since_commit true previous = none
  since_commit false none = none
  since_commit false (some c) = some c.commit_id

  unfoldable pub missing_versions : Text → ProcessingSelection → Action D Bool
  missing_versions domain selection =
      branch selection.baseline (pure false) (call domain (inputs.services.versions_missing domain))

  unfoldable pub record_histories :
      Text → Option ProcessingCheckpoint → ProcessingSelection → Action D Unit
  record_histories domain previous selection = do
    backfill ← missing_versions domain selection
    let whole = selection.baseline || backfill
    when (whole || not (is_empty selection.history)) (do
      enter domain version_counts
      call domain (inputs.services.record_versions domain (since_commit whole previous)))

  unfoldable pub store_failures : Text → List RetrievalFailure → Action D Bool
  store_failures domain [] = pure false
  store_failures domain (f ∷ fs) =
      call domain (inputs.services.save_retrieval_errors domain (f ∷ fs))

  -- `changed || load_summary(…)?.is_none()`, where the summary is looked for only if need be.
  unfoldable pub wants_summary : Text → Bool → Action D Bool
  wants_summary domain true = pure true
  wants_summary domain false = do
    stored ← call domain (inputs.services.has_summary domain)
    pure (not stored)

  unfoldable pub write_summary : Text → Bool → Action D Unit
  write_summary domain changed = do
    wanted ← wants_summary domain changed
    when wanted (do
      enter domain summary
      built ← call domain (inputs.services.build_summary domain)
      call domain (inputs.services.save_summary domain built))

  abbrev pub is_dirty : Option ProcessingCheckpoint → Bool
  is_dirty none = false
  is_dirty (some c) = c.summary_dirty

  -- What comes before the checkpoint is cleared, and what the selection needs.
  unfoldable pub choose_inputs :
      Source → Option ProcessingCheckpoint → Bool → Action D ProcessingSelection
  choose_inputs source previous force_full = do
    identity ← read (λ w. inputs.services.validator_identity source)
    enter source.domain clean_selection
    call source.domain (inputs.services.clean_selection source.domain)
    enter source.domain select_inputs
    chosen ← run_selection source previous force_full identity
    enter source.domain check_recovered_downloads
    recovered source.domain chosen

  -- Everything between the selection and the checkpoint.
  unfoldable pub process_selection :
      Source
      → Option ProcessingCheckpoint
      → List RetrievalFailure
      → ProcessingSelection
      → Action D Unit
  process_selection source previous retrieval_errors selection = do
    enter source.domain clean_validation_files
    call source.domain (inputs.services.clean_validation_files source.domain)
    enter source.domain count_validation_files
    count ← materialize_selection source.domain selection
    enter source.domain clean_results
    clean_stored_results source.domain selection
    validate_selection source count
    record_histories source.domain previous selection
    failed ← store_failures source.domain retrieval_errors
    write_summary source.domain (
        (is_dirty previous || (selection.full || (ltb 0 count || not (is_empty selection.deleted))))
        || failed)
    enter source.domain report
    call source.domain (inputs.services.generate_report source.domain)
    total ← call source.domain (inputs.services.document_count source.domain)
    edit_job source.domain (λ job. record job { documents_total = total })

  unfoldable pub process_snapshot : Source → Bool → List RetrievalFailure → Action D Unit
  process_snapshot source force_full retrieval_errors = do
    previous ← processing_checkpoint source.domain
    when force_full (clear_processing_checkpoint source.domain)
    selection ← choose_inputs source previous force_full
    process_selection source previous retrieval_errors selection
    save_processing_checkpoint source.domain selection.checkpoint
