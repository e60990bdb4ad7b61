-- ===== src/Storage/Documents/Store.antt =====
-- `save_documents`, `save_retrieval_errors` and the loading of documents in
-- server/src/storage/documents.rs.
use csaf_trove.Base.{
  ℕ, suc, Bool, ◌||◌, not, Option, none, some, List, [], ◌∷◌, ◌++◌, map, length, if◌then◌else◌,
}
use csaf_trove.Base.Text.{Text, bytes, text_eq}
use csaf_trove.Base.Effect.{Result, ok, ◌>>=◌, for_each}
use csaf_trove.Validation.Integrity.{DocumentChecks}
use csaf_trove.Validation.Documents.{DocumentMetadata}
use csaf_trove.Validation.Profiles.{DocumentProfileDetail, DocumentValidation}
use csaf_trove.Storage.Identifiers.{lossy_tracking_id}
use csaf_trove.Storage.Documents.{
  DocumentRow, StoredFailure, Tables, bit, profile_to_cols, own, find_row, has_url, has_tracking_id,
  delete_matching, mark_summary,
}

-- `map` with `?` and `collect`.
unfoldable pub map_results : {A B : Type 0} → (A → Result B) → List A → Result (List B)
map_results f [] = ok []
map_results f (x ∷ xs) = do y ← f x; ys ← map_results f xs; ok (y ∷ ys)

abbrev pub count_or : ℕ → Option DocumentRow → ℕ
count_or count none = count
count_or count (some row) = row.version_count

abbrev pub without_history : DocumentMetadata → DocumentMetadata
without_history m = record m { revision_history = [] }

abbrev pub failures_of : Text → Option DocumentProfileDetail → List StoredFailure
failures_of profile none = []
failures_of profile (some d) = map (λ f. record { profile = profile; failure = f }) d.failing_tests

module _ {V : Type 0} where
  -- The rows that a document replaces.
  unfoldable pub same_document : DocumentValidation V → DocumentRow → Bool
  unfolding lossy_tracking_id
  same_document doc row =
      (if not (text_eq (lossy_tracking_id doc.tracking_id) doc.tracking_id)
        then has_tracking_id doc.tracking_id row
          || has_tracking_id (lossy_tracking_id doc.tracking_id) row
        else has_tracking_id doc.tracking_id row)
      || has_url doc.url row

  unfoldable pub new_row : ℕ → ℕ → Text → DocumentValidation V → DocumentRow
  unfolding profile_to_cols
  new_row id version_count checks doc = record {
    id = id;
    tracking_id = doc.tracking_id;
    title = doc.title;
    url = doc.url;
    document_checks = checks;
    basic = profile_to_cols doc.basic;
    extended = profile_to_cols doc.extended;
    full = profile_to_cols doc.full;
    signature_present = bit doc.signature_present;
    signature_error = doc.signature_error;
    signature_warning = doc.signature_warning;
    metadata = without_history doc.metadata;
    retrieval_error = doc.retrieval_error;
    version_count = version_count;
  }

  abbrev pub all_failures : DocumentValidation V → List StoredFailure
  all_failures doc =
      failures_of (bytes "basic") doc.basic
      ++ (failures_of (bytes "extended") doc.extended ++ failures_of (bytes "full") doc.full)

  module _ {W : Type 0} where
    -- The row of a document, under the next key, and what belongs to it.
    unfoldable pub insert_document :
        DocumentRow → DocumentValidation V → List W → Tables W → Tables W
    unfolding own
    insert_document row doc vulnerabilities t = record t {
      documents = t.documents ++ (row ∷ []);
      failures = t.failures ++ own row.id (all_failures doc);
      revisions = t.revisions ++ own row.id doc.metadata.revision_history;
      vulnerabilities = t.vulnerabilities ++ own row.id vulnerabilities;
      next_id = suc row.id;
    }

    abbrev pub mark_saved : List (DocumentValidation V) → Tables W → Tables W
    mark_saved [] t = t
    mark_saved (doc ∷ docs) t = mark_summary t

-- `to_json` and `from_json` are serde's, `to_row` fills the row of a vulnerability.
module _ {V W : Type 0} (to_json : DocumentChecks → Result Text) (to_row : V → Result W) where
  -- The body of the loop of `save_documents`.
  unfoldable pub save_document : DocumentValidation V → Tables W → Result (Tables W)
  unfolding same_document new_row insert_document delete_matching find_row map_results
  save_document doc t = do
    checks ← to_json doc.checks
    vulnerabilities ← map_results to_row doc.vulnerabilities
    ok (
        insert_document
          (new_row t.next_id (count_or doc.version_count (find_row (has_url doc.url) t.documents))
            checks doc)
          doc vulnerabilities (delete_matching (same_document doc) t))

  unfoldable pub save_documents : List (DocumentValidation V) → Tables W → Result (Tables W × ℕ)
  unfolding save_document for_each
  save_documents docs t =
      for_each save_document docs t >>= λ saved. ok (mark_saved docs saved, length saved.documents)
