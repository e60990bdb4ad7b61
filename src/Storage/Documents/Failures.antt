-- ===== src/Storage/Documents/Failures.antt =====
-- `save_retrieval_errors` in server/src/storage/documents.rs: documents that could not be retrieved.
use csaf_trove.Base.{
  ℕ, suc, Bool, true, false, ◌&&◌, Option, none, some, List, [], ◌∷◌, ◌++◌, ◌==◌, if◌then◌else◌,
}
use csaf_trove.Base.Text.{Text, bytes, text_eq}
use csaf_trove.Base.Effect.{Result, ok, ◌>>=◌, for_each}
use csaf_trove.Overview.{failed_check, missing, not_evaluated}
use csaf_trove.Runner.World.{RetrievalFailure}
use csaf_trove.Validation.Integrity.{DocumentChecks, new_outcome}
use csaf_trove.Validation.Documents.{no_metadata}
use csaf_trove.Storage.Identifiers.{tracking_id_from_url}
use csaf_trove.Storage.Documents.{
  ProfileColumns, DocumentRow, Tables, profile_to_cols, find_row, has_url, mark_summary,
}

-- The checks of a document that could not be retrieved.
abbrev pub retrieval_checks : RetrievalFailure → DocumentChecks
retrieval_checks f = record {
  retrieval = record {
    status = if f.missing then missing else failed_check;
    message = some f.error;
    details = [];
  };
  parsing = new_outcome not_evaluated;
  signature = new_outcome not_evaluated;
  digest = new_outcome not_evaluated;
}

abbrev pub has_error : Text → Option Text → Bool
has_error error none = false
has_error error (some e) = text_eq e error

-- `update` of a row by its key.
unfoldable pub update_row : ℕ → (DocumentRow → DocumentRow) → List DocumentRow → List DocumentRow
update_row id f [] = []
update_row id f (row ∷ rows) =
    let rest = update_row id f rows in if row.id == id then f row ∷ rest else row ∷ rest

abbrev pub fail_row : Text → Text → DocumentRow → DocumentRow
fail_row error checks row = record row { retrieval_error = some error; document_checks = checks }

abbrev empty_columns : ProfileColumns
empty_columns = profile_to_cols none

-- A row with the defaults of the columns.
unfoldable pub stub_row : ℕ → Text → RetrievalFailure → DocumentRow
unfolding tracking_id_from_url profile_to_cols
stub_row id checks f = record {
  id = id;
  tracking_id = tracking_id_from_url f.url;
  title = bytes "Retrieval failed";
  url = f.url;
  document_checks = checks;
  basic = empty_columns;
  extended = empty_columns;
  full = empty_columns;
  signature_present = 0;
  signature_error = none;
  signature_warning = none;
  metadata = no_metadata;
  retrieval_error = some f.error;
  version_count = 1;
}

module _ {W : Type 0} where
  abbrev pub update_failed :
      Text → RetrievalFailure → DocumentRow → Tables W × Bool → Tables W × Bool
  update_failed checks f row (t, changed) =
      if has_error f.error row.retrieval_error && text_eq row.document_checks checks
      then (t, changed)
      else (record t { documents = update_row row.id (fail_row f.error checks) t.documents }, true)

  abbrev pub fail_document :
      Text → RetrievalFailure → Option DocumentRow → Tables W × Bool → Tables W × Bool
  fail_document checks f none (t, changed) = (
    record t {
      documents = t.documents ++ (stub_row t.next_id checks f ∷ []);
      next_id = suc t.next_id;
    },
    true,
  )
  fail_document checks f (some row) s = update_failed checks f row s

  abbrev pub mark_changed : Tables W × Bool → Tables W × Bool
  mark_changed (t, changed) = if changed then (mark_summary t, true) else (t, false)

module _ {W : Type 0} (to_json : DocumentChecks → Result Text) where
  -- The body of the loop of `save_retrieval_errors`.
  unfoldable pub save_retrieval_error :
      RetrievalFailure → Tables W × Bool → Result (Tables W × Bool)
  unfolding find_row update_row stub_row
  save_retrieval_error f s = to_json (retrieval_checks f) >>= λ checks.
      ok (fail_document checks f (find_row (has_url f.url) s.0.documents) s)

  unfoldable pub save_retrieval_errors : List RetrievalFailure → Tables W → Result (Tables W × Bool)
  unfolding save_retrieval_error for_each
  save_retrieval_errors errors t =
      for_each save_retrieval_error errors (t, false) >>= λ s. ok (mark_changed s)
