-- ===== src/Storage/Documents/Changes.antt =====
-- Every transaction on the tables of documents keeps their keys.
use mathlib.Core.Path.{subst}
use csaf_trove.Base.{
  ◌≡◌, refl, sym, ap, ◌∙◌, ℕ, suc, ◌<◌, Bool, true, false, ◌&&◌, Option, none, some, List, [], ◌∷◌,
  arith, Bool-cases, inl, inr, All, All-append, length,
}
use csaf_trove.Base.Text.{Text, text_eq}
use csaf_trove.Base.Effect.{Result, ok, ◌>>=◌, >>=-eq-ok, for_each, for_each-keeps, ok-injective}
use csaf_trove.Runner.World.{RetrievalFailure}
use csaf_trove.Validation.Integrity.{DocumentChecks}
use csaf_trove.Validation.Profiles.{DocumentValidation}
use csaf_trove.Storage.Documents.{
  DocumentRow, Tables, select_ids, find_row, has_url, delete_all_owned, delete_matching,
  delete_found, delete_document_urls, delete_all_documents, mark_summary,
}
use csaf_trove.Storage.Documents.Store.{
  same_document, new_row, all_failures, insert_document, save_document, mark_saved, save_documents,
  map_results,
}
use csaf_trove.Storage.Documents.Failures.{
  stub_row, update_failed, fail_document, save_retrieval_error, mark_changed, save_retrieval_errors,
  retrieval_checks, has_error,
}
use csaf_trove.Storage.Documents.Valid.{IsValid, delete_matching-eq, delete_all_owned-IsValid}
use csaf_trove.Storage.Documents.Kept.{
  append-IsKeyed, append-HasUrls, below-suc, append-Refers, own-Refers, delete_rows-url,
  same_document-url, find_row-none, update_row-All, update_row-IsKeyed, update_row-HasUrls,
  update_row-Refers,
}

-- The transactions.
pub data Change (V : Type 0) : Type 0 where
  saved : List (DocumentValidation V) → Change V
  unavailable : List RetrievalFailure → Change V
  deleted : List Text → Change V
  all_deleted : Change V

module _ {V W : Type 0} where
  pub insert_document-IsValid :
      (row : DocumentRow) (doc : DocumentValidation V) (vulnerabilities : List W) (t : Tables W)
      → IsValid t
      → row.id ≡ t.next_id
      → All (λ other. text_eq other.url row.url ≡ false) t.documents
      → IsValid (insert_document row doc vulnerabilities t)
  unfolding insert_document
  insert_document-IsValid row doc vulnerabilities t v same others =
      let below = subst (λ n. All (λ other. other.id < n) t.documents) (sym same) v.below in
      record {
        keyed = append-IsKeyed t.documents row v.keyed below;
        below =
            All-append (λ other. other.id < suc row.id) t.documents (row ∷ [])
              (below-suc row.id t.documents below) (omega arith, tt);
        urls = append-HasUrls t.documents row v.urls others;
        failures = own-Refers t.documents row t.failures (all_failures doc) v.failures;
        revisions =
            own-Refers t.documents row t.revisions doc.metadata.revision_history v.revisions;
        vulnerabilities =
            own-Refers t.documents row t.vulnerabilities vulnerabilities v.vulnerabilities;
      }

  -- A document that replaces others.
  pub replaced-IsValid :
      (count : ℕ) (checks : Text) (doc : DocumentValidation V) (vulnerabilities : List W)
      (t : Tables W)
      → IsValid t
      → IsValid (
          insert_document
            (new_row t.next_id count checks doc)
            doc
            vulnerabilities
            (delete_matching (same_document doc) t))
  unfolding new_row
  replaced-IsValid count checks doc vulnerabilities t v =
      subst
        (λ u. IsValid (insert_document (new_row t.next_id count checks doc) doc vulnerabilities u))
        (sym (delete_matching-eq (same_document doc) t))
        (insert_document-IsValid (new_row t.next_id count checks doc) doc vulnerabilities _
          (delete_all_owned-IsValid (same_document doc) t v) refl
          (delete_rows-url doc.url (same_document doc) t.documents (same_document-url doc)))

module _ {W : Type 0} where
  mark_summary-IsValid : (t : Tables W) → IsValid t → IsValid (mark_summary t)
  mark_summary-IsValid t v = record {
    keyed = v.keyed;
    below = v.below;
    urls = v.urls;
    failures = v.failures;
    revisions = v.revisions;
    vulnerabilities = v.vulnerabilities;
  }

  update_failed-IsValid :
      (checks : Text) (f : RetrievalFailure) (row : DocumentRow) (s : Tables W × Bool)
      → IsValid s.0
      → IsValid (update_failed checks f row s).0
  update_failed-IsValid checks f row (t, changed) v =
      elim (Bool-cases
        (has_error f.error row.retrieval_error && text_eq row.document_checks checks)) [
          | inl known ↦ rw known v
          | inr new ↦ rw new (record {
            keyed = update_row-IsKeyed row.id f.error checks t.documents v.keyed;
            below =
                update_row-All (λ r. r.id < t.next_id) row.id f.error checks t.documents (λ r h. h)
                  v.below;
            urls = update_row-HasUrls row.id f.error checks t.documents v.urls;
            failures = update_row-Refers row.id f.error checks t.documents t.failures v.failures;
            revisions = update_row-Refers row.id f.error checks t.documents t.revisions v.revisions;
            vulnerabilities =
                update_row-Refers row.id f.error checks t.documents t.vulnerabilities
                  v.vulnerabilities;
          })
        ]

  fail_document-IsValid :
      (checks : Text) (f : RetrievalFailure) (found : Option DocumentRow) (s : Tables W × Bool)
      → IsValid s.0
      → find_row (has_url f.url) s.0.documents ≡ found
      → IsValid (fail_document checks f found s).0
  unfolding stub_row
  fail_document-IsValid checks f none (t, changed) v missing =
      let stub = stub_row t.next_id checks f in
      record {
        keyed = append-IsKeyed t.documents stub v.keyed v.below;
        below =
            All-append (λ other. other.id < suc t.next_id) t.documents (stub ∷ [])
              (below-suc t.next_id t.documents v.below) (omega arith, tt);
        urls =
            append-HasUrls t.documents stub v.urls
              (find_row-none (has_url f.url) t.documents missing);
        failures = append-Refers t.documents stub t.failures v.failures;
        revisions = append-Refers t.documents stub t.revisions v.revisions;
        vulnerabilities = append-Refers t.documents stub t.vulnerabilities v.vulnerabilities;
      }
  fail_document-IsValid checks f (some row) s v found = update_failed-IsValid checks f row s v

  delete_document_url-IsValid :
      (url : Text) (ids : List ℕ) (t : Tables W)
      → select_ids (has_url url) t.documents ≡ ids
      → IsValid t
      → IsValid (delete_found url ids t)
  delete_document_url-IsValid url [] t same v = v
  delete_document_url-IsValid url (i ∷ ids) t same v =
      mark_summary-IsValid (delete_all_owned (i ∷ ids) (has_url url) t) (
        subst (λ (is : List ℕ). IsValid (delete_all_owned is (has_url url) t)) same
          (delete_all_owned-IsValid (has_url url) t v))

  delete_document_urls-IsValid :
      (urls : List Text) (t : Tables W) → IsValid t → IsValid (delete_document_urls urls t)
  unfolding delete_document_urls
  delete_document_urls-IsValid [] t v = v
  delete_document_urls-IsValid (url ∷ urls) t v =
      delete_document_urls-IsValid urls _
        (delete_document_url-IsValid url (select_ids (has_url url) t.documents) t refl v)

module _ {V W : Type 0} (to_json : DocumentChecks → Result Text) (to_row : V → Result W) where
  -- What a transaction leaves, if it succeeds.
  unfoldable pub apply_change : Change V → Tables W → Result (Tables W)
  unfolding save_documents save_retrieval_errors delete_document_urls delete_all_documents
  apply_change (saved docs) t = save_documents to_json to_row docs t >>= λ r. ok r.0
  apply_change (unavailable errors) t = save_retrieval_errors to_json errors t >>= λ r. ok r.0
  apply_change (deleted urls) t = ok (delete_document_urls urls t)
  apply_change all_deleted t = ok (delete_all_documents t)

  unfoldable pub apply_changes : List (Change V) → Tables W → Result (Tables W)
  unfolding apply_change for_each
  apply_changes changes t = for_each apply_change changes t

  save_document-IsValid :
      (doc : DocumentValidation V) (t t' : Tables W)
      → IsValid t
      → save_document to_json to_row doc t ≡ ok t'
      → IsValid t'
  unfolding save_document
  save_document-IsValid doc t t' v ran =
      let (checks, written, rest) = >>=-eq-ok (to_json doc.checks) _ ran in
      let (vulnerabilities, rows, done) =
        >>=-eq-ok (map_results to_row doc.vulnerabilities) _ rest in
      subst IsValid (ok-injective done) (replaced-IsValid _ checks doc vulnerabilities t v)

  mark_saved-IsValid :
      (docs : List (DocumentValidation V)) (t : Tables W) → IsValid t → IsValid (mark_saved docs t)
  mark_saved-IsValid [] t v = v
  mark_saved-IsValid (doc ∷ docs) t v = mark_summary-IsValid t v

  save_retrieval_error-IsValid :
      (f : RetrievalFailure) (s s' : Tables W × Bool)
      → IsValid s.0
      → save_retrieval_error to_json f s ≡ ok s'
      → IsValid s'.0
  unfolding save_retrieval_error
  save_retrieval_error-IsValid f s s' v ran =
      let (checks, written, done) = >>=-eq-ok (to_json (retrieval_checks f)) _ ran in
      subst (λ (r : Tables W × Bool). IsValid r.0) (ok-injective done)
        (fail_document-IsValid checks f (find_row (has_url f.url) s.0.documents) s v refl)

  mark_changed-IsValid : (s : Tables W × Bool) → IsValid s.0 → IsValid (mark_changed s).0
  mark_changed-IsValid (t, true) v = mark_summary-IsValid t v
  mark_changed-IsValid (t, false) v = v

  apply_change-IsValid :
      (c : Change V) (t t' : Tables W) → IsValid t → apply_change c t ≡ ok t' → IsValid t'
  unfolding apply_change save_documents save_retrieval_errors delete_all_documents
  apply_change-IsValid (saved docs) t t' v ran =
      let (r, done, last) = >>=-eq-ok (save_documents to_json to_row docs t) _ ran in
      let (s, stored, marked) = >>=-eq-ok (for_each (save_document to_json to_row) docs t) _ done in
      let e : Path (Tables W × ℕ) (mark_saved docs s, length s.documents) r = ok-injective marked in
      subst IsValid (ap (λ (p : Tables W × ℕ). p.0) e ∙ ok-injective last) (
        mark_saved-IsValid docs s (
          for_each-keeps IsValid (save_document to_json to_row) save_document-IsValid docs t s v
            stored))
  apply_change-IsValid (unavailable errors) t t' v ran =
      let (r, done, last) = >>=-eq-ok (save_retrieval_errors to_json errors t) _ ran in
      let (s, stored, marked) =
        >>=-eq-ok (for_each (save_retrieval_error to_json) errors (t, false)) _ done in
      let e : Path (Tables W × Bool) (mark_changed s) r = ok-injective marked in
      subst IsValid (ap (λ (p : Tables W × Bool). p.0) e ∙ ok-injective last) (
        mark_changed-IsValid s (
          for_each-keeps (λ (p : Tables W × Bool). IsValid p.0) (save_retrieval_error to_json)
            save_retrieval_error-IsValid errors (t, false) s v stored))
  apply_change-IsValid (deleted urls) t t' v ran =
      subst IsValid (ok-injective ran) (delete_document_urls-IsValid urls t v)
  apply_change-IsValid all_deleted t t' v ran = subst IsValid (ok-injective ran) (record {
    keyed = tt;
    below = tt;
    urls = tt;
    failures = tt;
    revisions = tt;
    vulnerabilities = tt;
  })

  -- Any sequence of transactions that save documents, note failed downloads or delete documents
  -- leaves distinct keys below the next one and no URL twice, and everything that belongs to a
  -- document refers to a row that exists.
  pub apply_changes-IsValid :
      (changes : List (Change V)) (t t' : Tables W)
      → IsValid t
      → apply_changes changes t ≡ ok t'
      → IsValid t'
  unfolding apply_changes
  apply_changes-IsValid changes t t' v ran =
      for_each-keeps IsValid apply_change apply_change-IsValid changes t t' v ran
