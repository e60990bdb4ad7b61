-- ===== src/Processing/Materialize/Visits.antt =====
-- Every traversal of `visit_processing_files` has a trace.
use csaf_trove.Base.{
  suc, refl, ◌∙◌, ap, Bool, true, false, ◌||◌, Option, List, [], ◌++◌, arith, length, is_some,
  if◌then◌else◌, Bool-cases, Option-cases, inl, inr,
}
use csaf_trove.Base.Text.{Text, bytes, text_lt, starts_with}
use csaf_trove.Base.Effect.{Result, ok, ◌>>◌, for_each, Result-cases}
use csaf_trove.Storage.PathSet.{PathSet, chunks, path_batch}
use csaf_trove.Storage.PathSet.Rows.{IsSorted}
use csaf_trove.Storage.PathSet.Pages.{read_rows, for_pages-chunks}
use csaf_trove.Storage.TreeDiff.Repository.{
  Tree, TreeEntry, Repository, Lookup, found, not_found, failed,
}
use csaf_trove.Processing.Paths.{ProcessingSelection, advisory_path, sidecar_suffixes}
use csaf_trove.Processing.Select.{or_stuck}
use csaf_trove.Processing.Incremental.{length-retain}
use csaf_trove.Processing.Materialize.{
  File, Extraction, is_blob, visit_entry, visit_blobs, visit_input, visit_metadata, visit_selected,
  visit_optional, visit_sidecar, visit_advisory, visit_advisories, visit_processing_files,
}
use csaf_trove.Processing.Materialize.Files.{
  Traversal, HasTrace, nothing, failing, single, followed-HasTrace, for_each-HasTrace,
  through-HasTrace,
}

module _ {F : Type 0} (extraction : Extraction F) (repo : Repository) where
  entry-HasTrace :
      (dir : Text) (entry : TreeEntry)
      → HasTrace (λ S v. visit_entry extraction repo v (dir, entry))
  unfolding visit_entry
  entry-HasTrace dir entry = elim (Bool-cases (is_blob entry.kind)) [
    | inr other ↦ nothing _ (λ S v s. rw other)
    | inl blob ↦ elim (Option-cases entry.name) [
      | inl no_name ↦ failing _ (bytes "Non-UTF-8 Git input path") (λ S v s. rw (blob, no_name))
      | inr (name, has) ↦ single _ (dir ++ name, entry.id) (λ S v s. rw (blob, has))
    ]
  ]

  walked-HasTrace : (tree : Tree) → HasTrace (λ S v s. extraction.walked tree >> ok s)
  walked-HasTrace tree = elim (Result-cases (extraction.walked tree)) [
    | inl (u, e) ↦ nothing _ (λ S v s. rw e)
    | inr (x, e) ↦ failing _ x (λ S v s. rw e)
  ]

  blobs-HasTrace : (tree : Tree) → HasTrace (λ S v. visit_blobs extraction repo tree v)
  unfolding visit_blobs
  blobs-HasTrace tree =
      followed-HasTrace (λ S v. for_each (visit_entry extraction repo v) (extraction.walk tree))
        (λ S v s. extraction.walked tree >> ok s)
        (for_each-HasTrace (λ x S v. visit_entry extraction repo v x) (extraction.walk tree)
          (λ x. entry-HasTrace x.0 x.1))
        (walked-HasTrace tree)

  input-HasTrace : (file : File) → HasTrace (λ S v. visit_input extraction repo v file)
  unfolding visit_input
  input-HasTrace file =
      elim (Bool-cases (starts_with file.0 (bytes "metadata/") || is_some (advisory_path file.0))) [
        | inl kept ↦ single _ file (λ S v s. rw kept)
        | inr dropped ↦ nothing _ (λ S v s. rw dropped)
      ]

  metadata-HasTrace : (entry : Lookup) → HasTrace (λ S v. visit_metadata extraction repo entry v)
  unfolding visit_metadata
  metadata-HasTrace not_found = nothing _ (λ S v s. refl)
  metadata-HasTrace (failed e) = nothing _ (λ S v s. refl)
  metadata-HasTrace (found id) = elim (Result-cases (repo.find_tree id)) [
    | inr (e, lost) ↦ failing _ e (λ S v s. rw lost)
    | inl (metadata, got) ↦
        let whole =
          through-HasTrace (λ S v. visit_blobs extraction repo metadata v)
            (λ file S v. v (bytes "metadata/" ++ file.0, file.1)) (blobs-HasTrace metadata)
            (λ file. single _ (bytes "metadata/" ++ file.0, file.1) (λ S v s. refl)) in
        record {
          files = whole.files;
          end = whole.end;
          trace = record { same = λ S v s. rw got (whole.trace.same S v s) };
        }
  ]

  selected-HasTrace :
      (advisory : Text) (entry : Lookup)
      → HasTrace (λ S v. visit_selected extraction repo advisory entry v)
  unfolding visit_selected
  selected-HasTrace advisory (found id) = single _ (advisory, id) (λ S v s. refl)
  selected-HasTrace advisory not_found =
      failing _ (bytes "Missing selected input " ++ advisory) (λ S v s. refl)
  selected-HasTrace advisory (failed e) =
      failing _ (bytes "Missing selected input " ++ advisory) (λ S v s. refl)

  optional-HasTrace :
      (path : Text) (entry : Lookup) → HasTrace (λ S v. visit_optional extraction repo path entry v)
  unfolding visit_optional
  optional-HasTrace path (found id) = single _ (path, id) (λ S v s. refl)
  optional-HasTrace path not_found = nothing _ (λ S v s. refl)
  optional-HasTrace path (failed e) = failing _ e (λ S v s. refl)

  advisory-HasTrace :
      (tree : Tree) (advisory : Text)
      → HasTrace (λ S v. visit_advisory extraction repo tree v advisory)
  unfolding visit_advisory visit_sidecar
  advisory-HasTrace tree advisory =
      followed-HasTrace
        (λ S v. visit_selected extraction repo advisory (repo.get_path tree advisory) v)
        (λ S v. for_each (visit_sidecar extraction repo tree advisory v) sidecar_suffixes)
        (selected-HasTrace advisory (repo.get_path tree advisory))
        (for_each-HasTrace (λ suffix S v. visit_sidecar extraction repo tree advisory v suffix)
          sidecar_suffixes
          (λ suffix.
            optional-HasTrace (advisory ++ suffix) (repo.get_path tree (advisory ++ suffix))))

  page-HasTrace :
      (tree : Tree) (page : List Text)
      → HasTrace (λ S v. for_each (visit_advisory extraction repo tree v) page)
  page-HasTrace tree page =
      for_each-HasTrace (λ advisory S v. visit_advisory extraction repo tree v advisory) page
        (advisory-HasTrace tree)

  advisories-HasTrace :
      (tree : Tree) (advisories : PathSet)
      → IsSorted advisories.rows
      → HasTrace (λ S v. visit_advisories extraction repo tree advisories v)
  unfolding visit_advisories
  advisories-HasTrace tree advisories sorted =
      let pages = chunks path_batch (read_rows advisories) in
      let whole =
        for_each-HasTrace (λ page S v. for_each (visit_advisory extraction repo tree v) page) pages
          (page-HasTrace tree) in
      record {
        files = whole.files;
        end = whole.end;
        trace = record {
          same = λ S v s.
              ap (λ (o : Option (Result S)). or_stuck o)
                (for_pages-chunks (suc (length advisories.rows)) advisories
                  (for_each (visit_advisory extraction repo tree v)) s sorted
                  (omega (arith, length-retain (text_lt []) advisories.rows))).0
              ∙ whole.trace.same S v s;
        };
      }

  pub processing_files-HasTrace :
      (tree : Tree) (selection : ProcessingSelection)
      → IsSorted selection.advisories.rows
      → HasTrace (λ S v. visit_processing_files extraction repo tree selection v)
  unfolding visit_processing_files
  processing_files-HasTrace tree selection sorted =
      choose selection.full
        (through-HasTrace (λ S v. visit_blobs extraction repo tree v)
          (λ file S v. visit_input extraction repo v file) (blobs-HasTrace tree) input-HasTrace)
        (followed-HasTrace
          (λ S v. visit_metadata extraction repo (repo.get_path tree (bytes "metadata")) v)
          (λ S v. visit_advisories extraction repo tree selection.advisories v)
          (metadata-HasTrace (repo.get_path tree (bytes "metadata")))
          (advisories-HasTrace tree selection.advisories sorted))
    where
      choose :
          {m k : Traversal} (full : Bool)
          → HasTrace m
          → HasTrace k
          → HasTrace (λ S v s. if full then m S v s else k S v s)
      choose true hm hk = hm
      choose false hm hk = hk
