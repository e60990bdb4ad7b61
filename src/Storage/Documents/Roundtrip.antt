-- ===== src/Storage/Documents/Roundtrip.antt =====
-- What is loaded after a document was saved.
use csaf_trove.Base.{
  ◌≡◌, refl, sym, ap, ◌∙◌, ℕ, ◌<◌, Bool, true, false, ◌&&◌, ◌||◌, some, List, [], ◌∷◌, any,
  Bool-cases, inl, inr, Option-cases, length,
}
use csaf_trove.Base.Text.{Text, text_eq, text_eq_refl}
use csaf_trove.Base.Effect.{Result, ok, >>=-eq-ok, for_each, for_each_single, ok-injective}
use csaf_trove.Validation.Integrity.{DocumentChecks}
use csaf_trove.Validation.Profiles.{DocumentValidation}
use csaf_trove.Storage.Identifiers.{lossy_tracking_id}
use csaf_trove.Storage.Documents.{
  DocumentRow, Tables, select_ids, find_row, has_url, has_tracking_id, delete_all_owned,
  mark_summary,
}
use csaf_trove.Storage.Documents.Store.{
  same_document, count_or, new_row, insert_document, save_document, save_documents, map_results,
}
use csaf_trove.Storage.Documents.Load.{load_found, load_document}
use csaf_trove.Storage.Documents.Rows.{
  ==-lt, ==_comm, find_row-All, find_row-inserted, find_row-other, find_row-kept,
}
use csaf_trove.Storage.Documents.Valid.{IsValid, delete_matching-eq}
use csaf_trove.Storage.Documents.Loaded.{
  as_loaded, loaded_document-saved, load_document-mark_summary, load_document-found,
  load_found-kept,
}

or-true_left : (a b : Bool) → a ≡ true → (a || b) ≡ true
or-true_left a b h = rw h

same_document-tracking_id :
    {V : Type 0} (doc : DocumentValidation V) (row : DocumentRow)
    → has_tracking_id doc.tracking_id row ≡ true
    → same_document doc row ≡ true
unfolding same_document
same_document-tracking_id doc row h =
    or-true_left _ (has_url doc.url row)
      (elim (Bool-cases (text_eq (lossy_tracking_id doc.tracking_id) doc.tracking_id)) [
        | inl same ↦ rw same h
        | inr lossy ↦
            rw lossy (or-true_left _ (has_tracking_id (lossy_tracking_id doc.tracking_id) row) h)
      ])

module _ {V W : Type 0} (doc : DocumentValidation V) (t : Tables W) (valid : IsValid t) (count : ℕ)
    (checks : Text) (vulnerabilities : List W) where
  abbrev new : DocumentRow
  new = new_row t.next_id count checks doc

  -- The tables after the document was saved.
  abbrev after : Tables W
  after =
      insert_document new doc vulnerabilities
        (delete_all_owned (select_ids (same_document doc) t.documents) (same_document doc) t)

  find_row-after : find_row (has_tracking_id doc.tracking_id) after.documents ≡ some new
  unfolding insert_document new_row
  find_row-after =
      find_row-inserted (has_tracking_id doc.tracking_id) (same_document doc) new t.documents
        (same_document-tracking_id doc) (text_eq_refl doc.tracking_id)

  load_document-after :
      (from_json : Text → Result DocumentChecks)
      → from_json checks ≡ ok doc.checks
      → load_document from_json doc.tracking_id after ≡ ok (some (as_loaded doc count))
  unfolding new_row
  load_document-after from_json read =
      load_document-found from_json after doc.tracking_id new doc.checks find_row-after read
      ∙ ap (λ (d : DocumentValidation V). ok (some d))
          (loaded_document-saved doc t valid count checks vulnerabilities)

  load_document-other :
      (from_json : Text → Result DocumentChecks) (other : Text)
      → text_eq doc.tracking_id other ≡ false
      → any (λ row. has_tracking_id other row && same_document doc row) t.documents ≡ false
      → load_document from_json {V = V} other after ≡ load_document from_json other t
  unfolding load_document insert_document new_row
  load_document-other from_json other different stays =
      let same : find_row (has_tracking_id other) after.documents
          ≡ find_row (has_tracking_id other) t.documents =
        find_row-other (has_tracking_id other) (same_document doc) new t.documents stays
          different in
      elim (Option-cases (find_row (has_tracking_id other) t.documents)) [
        | inl missing ↦
            ap (load_found from_json after) (same ∙ missing)
            ∙ sym (ap (load_found from_json t) missing)
        | inr (row, found) ↦
            ap (load_found from_json after) (same ∙ found)
            ∙ load_found-kept from_json doc t.next_id new row vulnerabilities _ (same_document doc)
                t refl
                (==_comm t.next_id row.id
                  ∙ ==-lt row.id t.next_id (
                      find_row-All (λ r. r.id < t.next_id) (has_tracking_id other) t.documents
                        valid.below found))
                (find_row-kept (has_tracking_id other) (same_document doc) t.documents valid.keyed
                  stays found)
            ∙ sym (ap (load_found from_json t) found)
      ]

-- The version count of a document that is stored under the URL already is kept.
abbrev pub kept_count : {V W : Type 0} → DocumentValidation V → Tables W → ℕ
kept_count doc t = count_or doc.version_count (find_row (has_url doc.url) t.documents)

module _ {V W : Type 0} (to_json : DocumentChecks → Result Text)
    (from_json : Text → Result DocumentChecks) (to_row : V → Result W) where
  -- If the JSON of its checks can be read back, a document that was saved to valid tables is loaded
  -- again under its identifier, without its vulnerabilities, with its profiles if it was retrieved
  -- and parsed, and with the version count that its URL had; and another identifier, none of
  -- whose documents is replaced, loads what it loaded before.
  pub load_document-save_documents :
      (doc : DocumentValidation V) (t t' : Tables W) (total : ℕ) (other : Text)
      → IsValid t
      → ((checks : Text) → to_json doc.checks ≡ ok checks → from_json checks ≡ ok doc.checks)
      → text_eq doc.tracking_id other ≡ false
      → any (λ row. has_tracking_id other row && same_document doc row) t.documents ≡ false
      → save_documents to_json to_row (doc ∷ []) t ≡ ok (t', total)
      → (load_document from_json doc.tracking_id t' ≡ ok (some (as_loaded doc (kept_count doc t))))
        × (load_document from_json {V = V} other t' ≡ load_document from_json other t)
  unfolding save_documents save_document
  load_document-save_documents doc t t' total other valid back different stays ran =
      let (u, stored, marked) =
        >>=-eq-ok (for_each (save_document to_json to_row) (doc ∷ []) t) _ ran in
      let one : save_document to_json to_row doc t ≡ ok u =
        sym (for_each_single (save_document to_json to_row) doc t) ∙ stored in
      let (checks, written, rest) = >>=-eq-ok (to_json doc.checks) _ one in
      let (vulnerabilities, rows, done) =
        >>=-eq-ok (map_results to_row doc.vulnerabilities) _ rest in
      let marked' : Path (Tables W × ℕ) (mark_summary u, length u.documents) (t', total) =
        ok-injective marked in
      let e : mark_summary (after doc t valid (kept_count doc t) checks vulnerabilities) ≡ t' =
        ap
          (λ d. mark_summary (
            insert_document (new_row t.next_id (kept_count doc t) checks doc) doc vulnerabilities
              d))
          (sym (delete_matching-eq (same_document doc) t))
        ∙ ap mark_summary (ok-injective done)
        ∙ ap (λ (r : Tables W × ℕ). r.0) marked' in
      (
        sym (ap (load_document from_json doc.tracking_id) e)
            ∙ load_document-mark_summary from_json _ doc.tracking_id
            ∙ load_document-after doc t valid (kept_count doc t) checks vulnerabilities from_json
                (back checks written),
        sym (ap (load_document from_json other) e)
            ∙ load_document-mark_summary from_json _ other
            ∙ load_document-other doc t valid (kept_count doc t) checks vulnerabilities from_json
                other different stays,
      )
