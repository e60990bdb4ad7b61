-- ===== src/Examples/Runner.antt =====
-- The theorems on jobs at the small repository, with services that succeed and with a report that
-- cannot be written.
use csaf_trove.Base.{ℕ, ◌≡◌, refl, ◌⊎◌, Bool, true, false, Option, none, some, List, [], ◌∷◌}
use csaf_trove.Base.Text.{Text, bytes, text_eq}
use csaf_trove.Base.Map
use csaf_trove.Base.Effect.{Result, ok, err}
use csaf_trove.Runner.World.{World, Source, SyncState, JobKind, sync_job}
use csaf_trove.Runner.Snapshot.{Inputs, process_snapshot}
use csaf_trove.Runner.Snapshot.Keeps.{Keeps}
use csaf_trove.Runner.Snapshot.Checkpoints.{
  Invalidated, process_snapshot-Keeps, process_snapshot-Invalidated,
}
use csaf_trove.Runner.Snapshot.Published.{IsPublished, process_snapshot-IsPublished}
use csaf_trove.Runner.Pipeline.{run_pipeline, run_job, is_held}
use csaf_trove.Runner.Pipeline.Tokens.{TokenRule, IsKeyed, run_pipeline-TokenRule}
use csaf_trove.Runner.Pipeline.Finish.{JobOutcome, run_job-JobOutcome}
use csaf_trove.Examples.Data.{source, inputs, world}

abbrev full_disk : Text
full_disk = bytes "full disk"

-- The world behind a pass, with the outcome of its report.
abbrev after : Result (Unit {0}) → Bool → World ℕ
after reported force_full = (process_snapshot (inputs reported) source force_full [] world).1

fails :
    (force_full : Bool)
    → process_snapshot (inputs (err full_disk)) source force_full [] world
      ≡ (err full_disk, after (err full_disk) force_full)
unfolding csaf_trove.Runner.World.◌>>=◌ csaf_trove.Runner.World.◌>>◌ csaf_trove.Runner.World.read
    csaf_trove.Runner.World.pure csaf_trove.Runner.World.branch csaf_trove.Runner.World.when
    csaf_trove.Runner.World.call csaf_trove.Runner.World.change_registry
    csaf_trove.Runner.Snapshot.clock csaf_trove.Runner.Snapshot.enter
    csaf_trove.Runner.Snapshot.show_progress csaf_trove.Runner.Snapshot.edit_job
    csaf_trove.Runner.Snapshot.processing_checkpoint
    csaf_trove.Runner.Snapshot.clear_processing_checkpoint
    csaf_trove.Runner.Snapshot.save_processing_checkpoint
    csaf_trove.Runner.Snapshot.include_recovered_downloads
    csaf_trove.Runner.Snapshot.check_downloads csaf_trove.Runner.Snapshot.recovered
    csaf_trove.Runner.Snapshot.delete_pages csaf_trove.Runner.Snapshot.clean_stored_results
    csaf_trove.Runner.Snapshot.run_selection csaf_trove.Runner.Snapshot.materialize_selection
    csaf_trove.Runner.Snapshot.validate_selection csaf_trove.Runner.Snapshot.missing_versions
    csaf_trove.Runner.Snapshot.record_histories csaf_trove.Runner.Snapshot.store_failures
    csaf_trove.Runner.Snapshot.wants_summary csaf_trove.Runner.Snapshot.write_summary
    csaf_trove.Runner.Snapshot.choose_inputs csaf_trove.Runner.Snapshot.process_selection
    csaf_trove.Runner.Snapshot.process_snapshot csaf_trove.Processing.Select.metadata_inputs
    csaf_trove.Processing.Select.fingerprint_of csaf_trove.Processing.Select.collect_changes
    csaf_trove.Processing.Select.resolve_lookup csaf_trove.Processing.Select.resolve_advisory
    csaf_trove.Processing.Select.resolve_path csaf_trove.Processing.Select.resolve_page
    csaf_trove.Processing.Select.resolve_changes csaf_trove.Processing.Select.scan_history
    csaf_trove.Processing.Select.select_processing csaf_trove.Processing.Scan.push_path
    csaf_trove.Processing.Scan.push_delta csaf_trove.Processing.Scan.flush
    csaf_trove.Processing.Scan.scan_from csaf_trove.Processing.Scan.scan_changes
    csaf_trove.Processing.Paths.advisory_path csaf_trove.Processing.Paths.path_url
    csaf_trove.Storage.PathSet.new csaf_trove.Storage.PathSet.insert_row
    csaf_trove.Storage.PathSet.rows_affected csaf_trove.Storage.PathSet.insert_rows
    csaf_trove.Storage.PathSet.chunks_fuel csaf_trove.Storage.PathSet.chunks
    csaf_trove.Storage.PathSet.insert_chunks csaf_trove.Storage.PathSet.insert_batch
    csaf_trove.Storage.PathSet.is_empty csaf_trove.Storage.PathSet.batch
    csaf_trove.Storage.PathSet.for_pages csaf_trove.Storage.TreeDiff.Cache.empty
    csaf_trove.Storage.TreeDiff.Cache.is_for csaf_trove.Storage.TreeDiff.Cache.put_back
    csaf_trove.Storage.TreeDiff.Cache.take_entry csaf_trove.Storage.TreeDiff.Cache.promote
    csaf_trove.Storage.TreeDiff.Cache.cached csaf_trove.Storage.TreeDiff.Cache.remember
    csaf_trove.Storage.TreeDiff.Cache.retain_delta csaf_trove.Storage.TreeDiff.Cache.visit_delta
    csaf_trove.Storage.TreeDiff.Cache.keep_retained csaf_trove.Storage.TreeDiff.Cache.visit_compare
    csaf_trove.Storage.TreeDiff.Cache.visit_cached csaf_trove.Storage.TreeDiff.Cache.visit
    csaf_trove.Storage.TreeDiff.Compare.same_oid csaf_trove.Storage.TreeDiff.Compare.get_name
    csaf_trove.Storage.TreeDiff.Compare.same_identity
    csaf_trove.Storage.TreeDiff.Compare.changed_directories
    csaf_trove.Storage.TreeDiff.Compare.subtree csaf_trove.Storage.TreeDiff.Compare.emit
    csaf_trove.Storage.TreeDiff.Compare.native_diff csaf_trove.Storage.TreeDiff.Compare.descend
    csaf_trove.Storage.TreeDiff.Compare.compare csaf_trove.Base.Text.text_eq
    csaf_trove.Base.Text.starts_with csaf_trove.Base.Text.strip_suffix
    csaf_trove.Base.Text.ends_with csaf_trove.Base.Text.text_lt csaf_trove.Base.Map.get
    csaf_trove.Base.Map.insert csaf_trove.Base.Map.remove csaf_trove.Base.Map.modify
    csaf_trove.Base.Effect.for_each csaf_trove.Jobs.same_phase csaf_trove.Jobs.notify
    csaf_trove.Jobs.entered_phase csaf_trove.Jobs.complete_phase csaf_trove.Jobs.enter_phase
    csaf_trove.Jobs.phase_work csaf_trove.Jobs.change_job csaf_trove.Jobs.set_phase_work
    csaf_trove.Jobs.update_job_phase csaf_trove.Jobs.set_phase_progress
fails true = refl
fails false = refl

succeeds : process_snapshot (inputs (ok tt)) source false [] world ≡ (ok tt, after (ok tt) false)
unfolding csaf_trove.Runner.World.◌>>=◌ csaf_trove.Runner.World.◌>>◌ csaf_trove.Runner.World.read
    csaf_trove.Runner.World.pure csaf_trove.Runner.World.branch csaf_trove.Runner.World.when
    csaf_trove.Runner.World.call csaf_trove.Runner.World.change_registry
    csaf_trove.Runner.Snapshot.clock csaf_trove.Runner.Snapshot.enter
    csaf_trove.Runner.Snapshot.show_progress csaf_trove.Runner.Snapshot.edit_job
    csaf_trove.Runner.Snapshot.processing_checkpoint
    csaf_trove.Runner.Snapshot.clear_processing_checkpoint
    csaf_trove.Runner.Snapshot.save_processing_checkpoint
    csaf_trove.Runner.Snapshot.include_recovered_downloads
    csaf_trove.Runner.Snapshot.check_downloads csaf_trove.Runner.Snapshot.recovered
    csaf_trove.Runner.Snapshot.delete_pages csaf_trove.Runner.Snapshot.clean_stored_results
    csaf_trove.Runner.Snapshot.run_selection csaf_trove.Runner.Snapshot.materialize_selection
    csaf_trove.Runner.Snapshot.validate_selection csaf_trove.Runner.Snapshot.missing_versions
    csaf_trove.Runner.Snapshot.record_histories csaf_trove.Runner.Snapshot.store_failures
    csaf_trove.Runner.Snapshot.wants_summary csaf_trove.Runner.Snapshot.write_summary
    csaf_trove.Runner.Snapshot.choose_inputs csaf_trove.Runner.Snapshot.process_selection
    csaf_trove.Runner.Snapshot.process_snapshot csaf_trove.Processing.Select.metadata_inputs
    csaf_trove.Processing.Select.fingerprint_of csaf_trove.Processing.Select.collect_changes
    csaf_trove.Processing.Select.resolve_lookup csaf_trove.Processing.Select.resolve_advisory
    csaf_trove.Processing.Select.resolve_path csaf_trove.Processing.Select.resolve_page
    csaf_trove.Processing.Select.resolve_changes csaf_trove.Processing.Select.scan_history
    csaf_trove.Processing.Select.select_processing csaf_trove.Processing.Scan.push_path
    csaf_trove.Processing.Scan.push_delta csaf_trove.Processing.Scan.flush
    csaf_trove.Processing.Scan.scan_from csaf_trove.Processing.Scan.scan_changes
    csaf_trove.Processing.Paths.advisory_path csaf_trove.Processing.Paths.path_url
    csaf_trove.Storage.PathSet.new csaf_trove.Storage.PathSet.insert_row
    csaf_trove.Storage.PathSet.rows_affected csaf_trove.Storage.PathSet.insert_rows
    csaf_trove.Storage.PathSet.chunks_fuel csaf_trove.Storage.PathSet.chunks
    csaf_trove.Storage.PathSet.insert_chunks csaf_trove.Storage.PathSet.insert_batch
    csaf_trove.Storage.PathSet.is_empty csaf_trove.Storage.PathSet.batch
    csaf_trove.Storage.PathSet.for_pages csaf_trove.Storage.TreeDiff.Cache.empty
    csaf_trove.Storage.TreeDiff.Cache.is_for csaf_trove.Storage.TreeDiff.Cache.put_back
    csaf_trove.Storage.TreeDiff.Cache.take_entry csaf_trove.Storage.TreeDiff.Cache.promote
    csaf_trove.Storage.TreeDiff.Cache.cached csaf_trove.Storage.TreeDiff.Cache.remember
    csaf_trove.Storage.TreeDiff.Cache.retain_delta csaf_trove.Storage.TreeDiff.Cache.visit_delta
    csaf_trove.Storage.TreeDiff.Cache.keep_retained csaf_trove.Storage.TreeDiff.Cache.visit_compare
    csaf_trove.Storage.TreeDiff.Cache.visit_cached csaf_trove.Storage.TreeDiff.Cache.visit
    csaf_trove.Storage.TreeDiff.Compare.same_oid csaf_trove.Storage.TreeDiff.Compare.get_name
    csaf_trove.Storage.TreeDiff.Compare.same_identity
    csaf_trove.Storage.TreeDiff.Compare.changed_directories
    csaf_trove.Storage.TreeDiff.Compare.subtree csaf_trove.Storage.TreeDiff.Compare.emit
    csaf_trove.Storage.TreeDiff.Compare.native_diff csaf_trove.Storage.TreeDiff.Compare.descend
    csaf_trove.Storage.TreeDiff.Compare.compare csaf_trove.Base.Text.text_eq
    csaf_trove.Base.Text.starts_with csaf_trove.Base.Text.strip_suffix
    csaf_trove.Base.Text.ends_with csaf_trove.Base.Text.text_lt csaf_trove.Base.Map.get
    csaf_trove.Base.Map.insert csaf_trove.Base.Map.remove csaf_trove.Base.Map.modify
    csaf_trove.Base.Effect.for_each csaf_trove.Jobs.same_phase csaf_trove.Jobs.notify
    csaf_trove.Jobs.entered_phase csaf_trove.Jobs.complete_phase csaf_trove.Jobs.enter_phase
    csaf_trove.Jobs.phase_work csaf_trove.Jobs.change_job csaf_trove.Jobs.set_phase_work
    csaf_trove.Jobs.update_job_phase csaf_trove.Jobs.set_phase_progress
succeeds = refl

process_snapshot-Keeps_example : Keeps world (after (err full_disk) false)
process_snapshot-Keeps_example =
    process_snapshot-Keeps (inputs (err full_disk)) source [] world full_disk
      (after (err full_disk) false) (fails false)

process_snapshot-Invalidated_example :
    Invalidated (inputs (err full_disk)) source.domain world full_disk (after (err full_disk) true)
process_snapshot-Invalidated_example =
    process_snapshot-Invalidated (inputs (err full_disk)) source [] world full_disk
      (after (err full_disk) true) (fails true)

process_snapshot-IsPublished_example :
    IsPublished (inputs (ok tt)) source false [] world (after (ok tt) false)
process_snapshot-IsPublished_example =
    process_snapshot-IsPublished (inputs (ok tt)) source false [] world (after (ok tt) false)
      succeeds

keyed : IsKeyed (inputs (ok tt)) world
unfolding Map.get
keyed domain s found = cc

run_pipeline-TokenRule_example :
    TokenRule (inputs (ok tt)) source world (run_pipeline (inputs (ok tt)) source world)
run_pipeline-TokenRule_example = run_pipeline-TokenRule (inputs (ok tt)) source world keyed

run_job-JobOutcome_example :
    JobOutcome
      (inputs (ok tt))
      (is_held (inputs (ok tt)) source.domain world.held)
      source
      sync_job
      world
      (run_job (inputs (ok tt)) source sync_job world)
run_job-JobOutcome_example = run_job-JobOutcome (inputs (ok tt)) source sync_job world
