-- ===== src/Examples/Resumed.antt =====
-- A forced pass whose report cannot be written, and the pass behind it.
use csaf_trove.Base.{ℕ, ◌+◌, ◌≡◌, refl, ◌⊎◌, true, false, [], ltb, if◌then◌else◌}
use csaf_trove.Base.Text.{Text, bytes}
use csaf_trove.Base.Effect.{ok, err}
use csaf_trove.Runner.World.{World}
use csaf_trove.Runner.Snapshot.{Inputs, process_snapshot}
use csaf_trove.Runner.Snapshot.Checkpoints.{NotCleared}
use csaf_trove.Runner.Snapshot.Resumed.{Revalidates, process_snapshot-Revalidates}
use csaf_trove.Examples.Data.{source, inputs, services, world}

abbrev full_disk : Text
full_disk = bytes "full disk"

-- Reports can be written from the 200th call on.
abbrev crowded : Inputs ℕ
crowded = record (inputs (ok tt)) {
  services = record (services (ok tt)) {
    generate_report = λ d n. record {
      result = if ltb n 200 then err full_disk else ok tt;
      reports = [];
      dirtied = false;
      rest = n + 1;
    };
  };
}

abbrev interrupted : World ℕ
interrupted = (process_snapshot crowded source true [] world).1

abbrev restarted : World ℕ
restarted = record interrupted { rest = 200 }

abbrev resumed : World ℕ
resumed = (process_snapshot crowded source false [] restarted).1

passes :
    (process_snapshot crowded source true [] world ≡ (err full_disk, interrupted))
    × (process_snapshot crowded source false [] restarted ≡ (ok tt, resumed))
unfolding csaf_trove.Runner.World.◌>>=◌ csaf_trove.Runner.World.◌>>◌ csaf_trove.Runner.World.read
    csaf_trove.Runner.World.pure csaf_trove.Runner.World.branch csaf_trove.Runner.World.when
    csaf_trove.Runner.World.call csaf_trove.Runner.World.change_registry
    csaf_trove.Runner.Snapshot.clock csaf_trove.Runner.Snapshot.enter
    csaf_trove.Runner.Snapshot.show_progress csaf_trove.Runner.Snapshot.edit_job
    csaf_trove.Runner.Snapshot.processing_checkpoint
    csaf_trove.Runner.Snapshot.clear_processing_checkpoint
    csaf_trove.Runner.Snapshot.save_processing_checkpoint
    csaf_trove.Runner.Snapshot.include_recovered_downloads
    csaf_trove.Runner.Snapshot.check_downloads csaf_trove.Runner.Snapshot.recovered
    csaf_trove.Runner.Snapshot.delete_pages csaf_trove.Runner.Snapshot.clean_stored_results
    csaf_trove.Runner.Snapshot.run_selection csaf_trove.Runner.Snapshot.materialize_selection
    csaf_trove.Runner.Snapshot.validate_selection csaf_trove.Runner.Snapshot.missing_versions
    csaf_trove.Runner.Snapshot.record_histories csaf_trove.Runner.Snapshot.store_failures
    csaf_trove.Runner.Snapshot.wants_summary csaf_trove.Runner.Snapshot.write_summary
    csaf_trove.Runner.Snapshot.choose_inputs csaf_trove.Runner.Snapshot.process_selection
    csaf_trove.Runner.Snapshot.process_snapshot csaf_trove.Processing.Select.metadata_inputs
    csaf_trove.Processing.Select.fingerprint_of csaf_trove.Processing.Select.collect_changes
    csaf_trove.Processing.Select.resolve_lookup csaf_trove.Processing.Select.resolve_advisory
    csaf_trove.Processing.Select.resolve_path csaf_trove.Processing.Select.resolve_page
    csaf_trove.Processing.Select.resolve_changes csaf_trove.Processing.Select.scan_history
    csaf_trove.Processing.Select.select_processing csaf_trove.Processing.Scan.push_path
    csaf_trove.Processing.Scan.push_delta csaf_trove.Processing.Scan.flush
    csaf_trove.Processing.Scan.scan_from csaf_trove.Processing.Scan.scan_changes
    csaf_trove.Processing.Paths.advisory_path csaf_trove.Processing.Paths.path_url
    csaf_trove.Storage.PathSet.new csaf_trove.Storage.PathSet.insert_row
    csaf_trove.Storage.PathSet.rows_affected csaf_trove.Storage.PathSet.insert_rows
    csaf_trove.Storage.PathSet.chunks_fuel csaf_trove.Storage.PathSet.chunks
    csaf_trove.Storage.PathSet.insert_chunks csaf_trove.Storage.PathSet.insert_batch
    csaf_trove.Storage.PathSet.is_empty csaf_trove.Storage.PathSet.batch
    csaf_trove.Storage.PathSet.for_pages csaf_trove.Storage.TreeDiff.Cache.empty
    csaf_trove.Storage.TreeDiff.Cache.is_for csaf_trove.Storage.TreeDiff.Cache.put_back
    csaf_trove.Storage.TreeDiff.Cache.take_entry csaf_trove.Storage.TreeDiff.Cache.promote
    csaf_trove.Storage.TreeDiff.Cache.cached csaf_trove.Storage.TreeDiff.Cache.remember
    csaf_trove.Storage.TreeDiff.Cache.retain_delta csaf_trove.Storage.TreeDiff.Cache.visit_delta
    csaf_trove.Storage.TreeDiff.Cache.keep_retained csaf_trove.Storage.TreeDiff.Cache.visit_compare
    csaf_trove.Storage.TreeDiff.Cache.visit_cached csaf_trove.Storage.TreeDiff.Cache.visit
    csaf_trove.Storage.TreeDiff.Compare.same_oid csaf_trove.Storage.TreeDiff.Compare.get_name
    csaf_trove.Storage.TreeDiff.Compare.same_identity
    csaf_trove.Storage.TreeDiff.Compare.changed_directories
    csaf_trove.Storage.TreeDiff.Compare.subtree csaf_trove.Storage.TreeDiff.Compare.emit
    csaf_trove.Storage.TreeDiff.Compare.native_diff csaf_trove.Storage.TreeDiff.Compare.descend
    csaf_trove.Storage.TreeDiff.Compare.compare csaf_trove.Base.Text.text_eq
    csaf_trove.Base.Text.starts_with csaf_trove.Base.Text.strip_suffix
    csaf_trove.Base.Text.ends_with csaf_trove.Base.Text.text_lt csaf_trove.Base.Map.get
    csaf_trove.Base.Map.insert csaf_trove.Base.Map.remove csaf_trove.Base.Map.modify
    csaf_trove.Base.Effect.for_each csaf_trove.Jobs.same_phase csaf_trove.Jobs.notify
    csaf_trove.Jobs.entered_phase csaf_trove.Jobs.complete_phase csaf_trove.Jobs.enter_phase
    csaf_trove.Jobs.phase_work csaf_trove.Jobs.change_job csaf_trove.Jobs.set_phase_work
    csaf_trove.Jobs.update_job_phase csaf_trove.Jobs.set_phase_progress
passes = (refl, refl)

process_snapshot-Revalidates_example :
    NotCleared crowded source.domain world full_disk interrupted
    ⊎ Revalidates crowded source false [] restarted resumed
process_snapshot-Revalidates_example =
    process_snapshot-Revalidates crowded source false [] [] world interrupted restarted resumed
      full_disk passes.0 refl passes.1
