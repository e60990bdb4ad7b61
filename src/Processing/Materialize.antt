-- ===== src/Processing/Materialize.antt =====
-- `visit_blobs`, `visit_processing_files` and `materialize_processing_with_progress`: the committed
-- files that a pass validates, counted first and extracted then.
pub mod Files
pub mod Visits
pub mod Counts
use csaf_trove.Base.{
  ℕ, zero, suc, ◌+◌, Bool, true, false, ◌||◌, Option, none, some, List, [], ◌∷◌, ◌++◌, length,
  is_some, if◌then◌else◌,
}
use csaf_trove.Base.Text.{Text, bytes, text_eq, starts_with}
use csaf_trove.Base.Effect.{Result, ok, err, ◌>>=◌, ◌>>◌, for_each}
use csaf_trove.Storage.PathSet.{PathSet, for_pages}
use csaf_trove.Storage.TreeDiff.Repository.{
  Oid, EntryKind, tree_kind, blob_kind, other_kind, Tree, TreeEntry, Commit, Repository, Lookup,
  found, not_found, failed,
}
use csaf_trove.Processing.Paths.{ProcessingSelection, advisory_path, sidecar_suffixes}
use csaf_trove.Processing.Select.{or_stuck}

-- A visited file: its path and its blob.
abbrev pub File : Type 0
File = Text × Oid

-- `Tree::walk` in pre-order, with the directory of each entry, and how it ends if it is not
-- aborted; and `scratch::write` into the output directory, which is `F`.
pub record Extraction (F : Type 0) : Type 0 where
  pub walk : Tree → List (Text × TreeEntry)
  pub walked : Tree → Result (Unit {0})
  pub write : Text → Text → F → Result F

abbrev pub is_blob : EntryKind → Bool
is_blob blob_kind = true
is_blob _ = false

abbrev pub named : Option Text → Result Text
named none = err (bytes "Non-UTF-8 Git input path")
named (some name) = ok name

module _ {F : Type 0} (extraction : Extraction F) (repo : Repository) {S : Type 0} where
  -- The closure of the walk.
  unfoldable pub visit_entry : (File → S → Result S) → Text × TreeEntry → S → Result S
  visit_entry visitor (dir, entry) s =
      if is_blob entry.kind
      then (named entry.name >>= λ name. visitor (dir ++ name, entry.id) s)
      else ok s

  -- A failing visitor aborts the walk.
  unfoldable pub visit_blobs : Tree → (File → S → Result S) → S → Result S
  unfolding for_each visit_entry
  visit_blobs tree visitor s = for_each (visit_entry visitor) (extraction.walk tree) s >>= λ s'.
      extraction.walked tree >> ok s'

  -- The closure of a full pass: shared metadata, advisories and their sidecars.
  unfoldable pub visit_input : (File → S → Result S) → File → S → Result S
  visit_input visit file s =
      if starts_with file.0 (bytes "metadata/") || is_some (advisory_path file.0)
      then visit file s
      else ok s

  unfoldable pub visit_metadata : Lookup → (File → S → Result S) → S → Result S
  unfolding visit_blobs
  visit_metadata (found id) visit s = repo.find_tree id >>= λ metadata.
      visit_blobs metadata (λ file. visit (bytes "metadata/" ++ file.0, file.1)) s
  visit_metadata _ visit s = ok s

  unfoldable pub visit_selected : Text → Lookup → (File → S → Result S) → S → Result S
  visit_selected advisory (found id) visit s = visit (advisory, id) s
  visit_selected advisory _ visit s = err (bytes "Missing selected input " ++ advisory)

  unfoldable pub visit_optional : Text → Lookup → (File → S → Result S) → S → Result S
  visit_optional path (found id) visit s = visit (path, id) s
  visit_optional path not_found visit s = ok s
  visit_optional path (failed e) visit s = err e

  unfoldable pub visit_sidecar : Tree → Text → (File → S → Result S) → Text → S → Result S
  unfolding visit_optional
  visit_sidecar tree advisory visit suffix s =
      visit_optional (advisory ++ suffix) (repo.get_path tree (advisory ++ suffix)) visit s

  -- The body of the loop over a page.
  unfoldable pub visit_advisory : Tree → (File → S → Result S) → Text → S → Result S
  unfolding visit_selected visit_sidecar for_each
  visit_advisory tree visit advisory s =
      visit_selected advisory (repo.get_path tree advisory) visit s
      >>= for_each (visit_sidecar tree advisory visit) sidecar_suffixes

  unfoldable pub visit_advisories : Tree → PathSet → (File → S → Result S) → S → Result S
  unfolding for_pages visit_advisory for_each
  visit_advisories tree advisories visit s = or_stuck (
      for_pages (suc (length advisories.rows)) advisories (for_each (visit_advisory tree visit)) []
        s)

  unfoldable pub visit_processing_files :
      Tree → ProcessingSelection → (File → S → Result S) → S → Result S
  unfolding visit_blobs visit_metadata visit_advisories
  visit_processing_files tree selection visit s =
      if selection.full
      then visit_blobs tree (visit_input visit) s
      else (visit_metadata (repo.get_path tree (bytes "metadata")) visit s
          >>= visit_advisories tree selection.advisories visit)

-- The counters of the extraction, and the output directory.
pub record Extracted (F : Type 0) : Type 0 where
  pub total : ℕ
  pub files : ℕ
  pub documents : ℕ
  pub output : F

abbrev pub is_advisory : Text → Option Text → Bool
is_advisory path none = false
is_advisory path (some advisory) = text_eq advisory path

abbrev pub parsed : Option Oid → Result Oid
parsed none = err (bytes "invalid object id")
parsed (some oid) = ok oid

module _ {F : Type 0} (extraction : Extraction F) (repo : Repository) where
  unfoldable pub count_file : File → ℕ → Result ℕ
  count_file file total = ok (total + 1)

  unfoldable pub extract_file : File → Extracted F → Result (Extracted F)
  extract_file file x = do
    content ← repo.find_blob file.1
    output ← extraction.write file.0 content x.output
    ok (record x {
      files = x.files + 1;
      documents =
          if is_advisory file.0 (advisory_path file.0) then x.documents + 1 else x.documents;
      output = output;
    })

  -- `materialize_processing_with_progress`
  unfoldable pub materialize_processing : ProcessingSelection → F → Result (Extracted F)
  unfolding visit_processing_files count_file extract_file
  materialize_processing selection output = do
    oid ← parsed (repo.parse_oid selection.checkpoint.commit_id)
    commit ← repo.find_commit oid
    total ← visit_processing_files extraction repo commit.tree selection count_file 0
    visit_processing_files extraction repo commit.tree selection extract_file
        (record { total = total; files = 0; documents = 0; output = output })
