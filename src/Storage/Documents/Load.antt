-- ===== src/Storage/Documents/Load.antt =====
-- The loading of documents from their tables in server/src/storage/documents.rs.
use csaf_trove.Base.{
  Bool, true, false, ◌&&◌, not, Option, none, some, List, [], ◌∷◌, ◌==◌, if◌then◌else◌,
}
use csaf_trove.Base.Text.{Text, bytes}
use csaf_trove.Base.Effect.{Result, ok, ◌>>=◌}
use csaf_trove.Overview.{CheckStatus, passed, failed_check, missing, warning, not_evaluated}
use csaf_trove.Validation.Integrity.{DocumentChecks}
use csaf_trove.Validation.Documents.{DocumentMetadata}
use csaf_trove.Validation.Profiles.{DocumentValidation}
use csaf_trove.Storage.Documents.Store.{map_results}
use csaf_trove.Storage.Documents.{
  DocumentRow, Tables, cols_to_profile, owned, find_row, has_tracking_id,
}

abbrev pub is_passed : CheckStatus → Bool
is_passed passed = true
is_passed failed_check = false
is_passed warning = false
is_passed missing = false
is_passed not_evaluated = false

abbrev pub is_evaluated : DocumentChecks → Bool
is_evaluated checks = is_passed checks.retrieval.status && is_passed checks.parsing.status

abbrev pub profile_if : {A : Type 0} → Bool → Option A → Option A
profile_if evaluated detail = if evaluated then detail else none

abbrev with_history : DocumentMetadata → List (Text × Text × Text) → DocumentMetadata
with_history m entries = record m { revision_history = entries }

abbrev first : {A : Type 0} → List A → Option A
first [] = none
first (x ∷ xs) = some x

module _ {W : Type 0} where
  -- The document of a row; vulnerabilities are not loaded.
  unfoldable pub loaded_document :
      {V : Type 0} → Tables W → DocumentRow → DocumentChecks → DocumentValidation V
  unfolding owned cols_to_profile
  loaded_document t row checks =
      let failures = owned row.id t.failures in
      record {
        checks = checks;
        tracking_id = row.tracking_id;
        title = row.title;
        url = row.url;
        basic = profile_if (is_evaluated checks) (cols_to_profile row failures (bytes "basic"));
        extended =
            profile_if (is_evaluated checks) (cols_to_profile row failures (bytes "extended"));
        full = profile_if (is_evaluated checks) (cols_to_profile row failures (bytes "full"));
        signature_error = row.signature_error;
        signature_warning = row.signature_warning;
        signature_present = not (row.signature_present == 0);
        metadata = with_history row.metadata (owned row.id t.revisions);
        vulnerabilities = [];
        version_count = row.version_count;
        retrieval_error = row.retrieval_error;
      }

module _ {W : Type 0} (from_json : Text → Result DocumentChecks) where
  unfoldable pub load_row : {V : Type 0} → Tables W → DocumentRow → Result (DocumentValidation V)
  unfolding loaded_document
  load_row t row = from_json row.document_checks >>= λ checks. ok (loaded_document t row checks)

  unfoldable pub load_failures_for_docs :
      {V : Type 0} → Tables W → List DocumentRow → Result (List (DocumentValidation V))
  unfolding load_row map_results
  load_failures_for_docs t rows = map_results (load_row t) rows

  abbrev pub load_found :
      {V : Type 0} → Tables W → Option DocumentRow → Result (Option (DocumentValidation V))
  load_found t none = ok none
  load_found t (some row) = load_failures_for_docs t (row ∷ []) >>= λ items. ok (first items)

  unfoldable pub load_document :
      {V : Type 0} → Text → Tables W → Result (Option (DocumentValidation V))
  unfolding find_row load_failures_for_docs
  load_document tracking_id t = load_found t (find_row (has_tracking_id tracking_id) t.documents)
