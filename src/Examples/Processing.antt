-- ===== src/Examples/Processing.antt =====
-- The theorems on the selection at the small repository, from its first commit to its second.
use csaf_trove.Base.{◌≡◌, refl, Bool, true, false, some, List, [], ◌∷◌, arith, Bool-cases, inl, inr}
use csaf_trove.Base.Text.{Text, bytes, text_eq}
use csaf_trove.Base.Effect.{ok, for_each}
use csaf_trove.Storage.PathSet.{insert_batch, new}
use csaf_trove.Storage.PathSet.Rows.{
  contains, insert_batch-IsValid, new-IsValid, contains-insert_batch,
}
use csaf_trove.Storage.TreeDiff.Compare.{same_oid, changed_directories, native_diff, compare, emit}
use csaf_trove.Base.{◌++◌, map, length, retain}
use csaf_trove.Base.Text.{starts_with, strip_suffix, ends_with}
use csaf_trove.Base.Effect.{◌>>◌, Result}
use csaf_trove.Processing.Paths.{advisory_path, ProcessingSelection}
use csaf_trove.Processing.Materialize.{
  File, Extraction, Extracted, visit_processing_files, visit_blobs, visit_entry, visit_input,
  count_file, extract_file, materialize_processing,
}
use csaf_trove.Processing.Materialize.Files.{IsTrace}
use csaf_trove.Processing.Materialize.Counts.{
  is_document, materialize_processing_lem, materialize_processing-counts,
}
use csaf_trove.Processing.Scan.{Batch, scan_changes}
use csaf_trove.Processing.Select.{
  fingerprint_of, metadata_inputs, Sets, no_sets, resolve_changes, select_processing,
}
use csaf_trove.Processing.History.{Step, IsLinear, touched, sent_paths, scan_changes-Linear}
use csaf_trove.Processing.Resolve.{Answers, SetsValid}
use csaf_trove.Processing.Incremental.{
  Resolves, resolve_changes_lem, selected, select_processing-Linear,
}
use csaf_trove.Examples.Data.{
  advisory, sidecar, gone, repository, digests, old_commit, new_commit, new_tree, deltas,
  checkpoint,
}

abbrev steps : List Step
steps = (old_commit, deltas) ∷ []

answers : (full : Bool) → Answers full repository new_tree
answers full path e h = elim (Bool-cases (text_eq path advisory)) [ inl same ↦ cc | inr other ↦ cc ]

is_linear : IsLinear repository 2 (bytes "c1") new_commit steps
unfolding text_eq compare native_diff emit changed_directories same_oid for_each
is_linear = (refl, refl, refl, refl, refl, refl, refl)

scan_changes-Linear_example :
    (sent : List Batch) × (scan_changes 3 2 repository (bytes "c2") (some (bytes "c1"))
      ≡ ok (false, sent))
    × (sent_paths sent ≡ touched steps)
unfolding text_eq
scan_changes-Linear_example =
    scan_changes-Linear 3 2 repository (bytes "c1") new_commit steps refl is_linear (omega arith)

inserted :
    (p : Text)
    → contains p (insert_batch (sidecar ∷ gone ∷ []) new).rows ≡ contains p (sidecar ∷ gone ∷ [])
unfolding contains new
inserted p = ground (arith, contains-insert_batch p (sidecar ∷ gone ∷ []) new)

resolve_changes_lem_example :
    (sets : Sets) × (resolve_changes false repository new_tree
        (insert_batch (sidecar ∷ gone ∷ []) new)
      ≡ ok sets)
    × SetsValid false repository new_tree sets
    × Resolves false repository new_tree (sidecar ∷ gone ∷ []) sets
resolve_changes_lem_example =
    resolve_changes_lem false repository new_tree (insert_batch (sidecar ∷ gone ∷ []) new)
      (sidecar ∷ gone ∷ []) (answers false)
      (insert_batch-IsValid (sidecar ∷ gone ∷ []) new new-IsValid) inserted

select_processing-Linear_example :
    (sets : Sets) × (select_processing digests 3 2 repository (some checkpoint) (bytes "v5") false
      ≡ ok (selected (bytes "c2") (bytes "f") false false sets))
    × SetsValid false repository new_tree sets
    × Resolves false repository new_tree (touched steps) sets
unfolding text_eq fingerprint_of metadata_inputs
select_processing-Linear_example =
    select_processing-Linear digests 3 2 repository new_commit (bytes "c1") checkpoint (bytes "v5")
      false steps refl refl refl is_linear (omega arith) refl (answers false)

abbrev extraction : Extraction (List Text)
extraction = record {
  walk = λ tree. map (λ entry. ([], entry)) tree.entries;
  walked = λ tree. ok tt;
  write = λ path content written. ok (written ++ (path ∷ []));
}

-- A full pass over the second commit.
abbrev full_selection : ProcessingSelection
full_selection = selected (bytes "c2") (bytes "f") true true no_sets

materialize_processing_lem_example :
    (files : List File) × (end : Result (Unit {0})) × IsTrace
      (λ S v. visit_processing_files extraction repository new_tree full_selection v)
      files
      end
    × (materialize_processing extraction repository full_selection [] ≡ (
        end
        >> for_each
            (extract_file extraction repository)
            files
            (record { total = length files; files = 0; documents = 0; output = [] })))
unfolding text_eq new
materialize_processing_lem_example =
    materialize_processing_lem extraction repository full_selection [] (bytes "c2") new_commit refl
      refl new-IsValid

-- The advisory and its sidecar.
abbrev both_written : Extracted (List Text)
both_written = record { total = 2; files = 2; documents = 1; output = advisory ∷ sidecar ∷ [] }

materialize_processing-counts_example :
    (files : List File) × IsTrace
      (λ S v. visit_processing_files extraction repository new_tree full_selection v)
      files
      (ok tt)
    × (both_written.total ≡ length files)
    × (both_written.files ≡ both_written.total)
    × (both_written.documents ≡ length (retain is_document files))
unfolding text_eq new materialize_processing visit_processing_files visit_blobs visit_entry
    visit_input for_each count_file extract_file starts_with advisory_path strip_suffix ends_with
materialize_processing-counts_example =
    materialize_processing-counts extraction repository full_selection [] (bytes "c2") new_commit
      both_written refl refl new-IsValid refl
