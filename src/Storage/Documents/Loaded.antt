-- ===== src/Storage/Documents/Loaded.antt =====
-- A document that was saved is loaded again.
use mathlib.Core.List.{append-nil}
use csaf_trove.Base.{
  ◌≡◌, refl, ap, ◌∙◌, ℕ, ◌<◌, Bool, false, not, Option, none, some, List, [], ◌++◌, ◌==◌, All,
}
use csaf_trove.Base.Text.{Text, bytes}
use csaf_trove.Base.Effect.{Result, ok}
use csaf_trove.Validation.Integrity.{DocumentChecks}
use csaf_trove.Validation.Profiles.{DocumentProfileDetail, DocumentValidation}
use csaf_trove.Storage.Documents.{
  DocumentRow, Owned, StoredFailure, Tables, bit, owned, own, is_in, delete_owned, select_ids,
  find_row, has_tracking_id, delete_all_owned, mark_summary, cols_to_profile,
}
use csaf_trove.Storage.Documents.Store.{
  same_document, new_row, all_failures, insert_document, map_results,
}
use csaf_trove.Storage.Documents.Load.{
  is_evaluated, profile_if, loaded_document, load_row, load_failures_for_docs, load_found,
  load_document,
}
use csaf_trove.Storage.Documents.Rows.{
  owned-append, owned-own, owned-own_other, owned-delete_owned, owned-fresh, delete_owned-All,
}
use csaf_trove.Storage.Documents.Valid.{Refers, IsValid, Refers-lt}
use csaf_trove.Storage.Documents.Details.{
  bit-not, cols_to_profile-basic, cols_to_profile-extended, cols_to_profile-full,
}

-- What belongs to a new document.
owned-inserted :
    {A : Type 0} (n : ℕ) (cs : List (Owned A)) (entries : List A)
    → All (λ c. c.document_id < n) cs
    → owned n (cs ++ own n entries) ≡ entries
owned-inserted n cs entries below =
    rw (owned-append n cs (own n entries), owned-fresh n cs below, owned-own n entries)

-- What belongs to another document that stays.
owned-kept :
    {A : Type 0} (n id : ℕ) (ids : List ℕ) (cs : List (Owned A)) (entries : List A)
    → (n == id) ≡ false
    → is_in id ids ≡ false
    → owned id (delete_owned ids cs ++ own n entries) ≡ owned id cs
owned-kept n id ids cs entries other stays =
    rw
      (
        owned-append id (delete_owned ids cs) (own n entries),
        owned-own_other n id entries other,
        owned-delete_owned id ids cs stays,
      )
      (append-nil (owned id cs))

module _ {V : Type 0} (doc : DocumentValidation V) where
  -- What is loaded of a document: its profiles only if it was retrieved and parsed, and no
  -- vulnerabilities.
  abbrev pub as_loaded : ℕ → DocumentValidation V
  as_loaded count = record doc {
    basic = profile_if (is_evaluated doc.checks) doc.basic;
    extended = profile_if (is_evaluated doc.checks) doc.extended;
    full = profile_if (is_evaluated doc.checks) doc.full;
    vulnerabilities = [];
    version_count = count;
  }

  -- The document with other profiles, history and presence of a signature.
  abbrev assembled :
      (basic extended full : Option DocumentProfileDetail)
      → List (Text × Text × Text)
      → Bool
      → ℕ
      → DocumentValidation V
  assembled basic extended full history present count = record doc {
    basic = profile_if (is_evaluated doc.checks) basic;
    extended = profile_if (is_evaluated doc.checks) extended;
    full = profile_if (is_evaluated doc.checks) full;
    signature_present = present;
    metadata = record (doc.metadata) { revision_history = history };
    vulnerabilities = [];
    version_count = count;
  }

  module _ {W : Type 0} (t : Tables W) (valid : IsValid t) (count : ℕ) (checks : Text)
      (vulnerabilities : List W) where
    abbrev saved : Tables W
    saved =
        insert_document (new_row t.next_id count checks doc) doc vulnerabilities
          (delete_all_owned (select_ids (same_document doc) t.documents) (same_document doc) t)

    owned-saved :
        {A : Type 0} (cs : List (Owned A)) (entries : List A)
        → Refers t.documents cs
        → owned t.next_id
            (delete_owned (select_ids (same_document doc) t.documents) cs ++ own t.next_id entries)
          ≡ entries
    owned-saved cs entries refers = owned-inserted t.next_id _ entries (
        delete_owned-All (λ c. c.document_id < t.next_id) _ cs
          (Refers-lt t.next_id t.documents cs valid.below refers))

    abbrev new : DocumentRow
    new = new_row t.next_id count checks doc

    abbrev assemble : List StoredFailure → List (Text × Text × Text) → Bool → DocumentValidation V
    assemble failures history present =
        assembled (cols_to_profile new failures (bytes "basic"))
          (cols_to_profile new failures (bytes "extended"))
          (cols_to_profile new failures (bytes "full")) history present count

    pub loaded_document-saved : loaded_document saved new doc.checks ≡ as_loaded count
    unfolding loaded_document insert_document new_row
    loaded_document-saved =
        ap
          (λ failures.
            assemble failures (owned t.next_id saved.revisions)
              (not (bit doc.signature_present == 0)))
          (owned-saved t.failures (all_failures doc) valid.failures)
        ∙ ap (λ history. assemble (all_failures doc) history (not (bit doc.signature_present == 0)))
            (owned-saved t.revisions doc.metadata.revision_history valid.revisions)
        ∙ ap (assemble (all_failures doc) doc.metadata.revision_history)
            (bit-not doc.signature_present)
        ∙ rw (
          cols_to_profile-basic doc t.next_id count checks,
          cols_to_profile-extended doc t.next_id count checks,
          cols_to_profile-full doc t.next_id count checks,
        )

-- The summary's flag is not read.
load_found-mark_summary :
    {V W : Type 0} (from_json : Text → Result DocumentChecks) (t : Tables W)
    (found : Option DocumentRow)
    → load_found from_json {V = V} (mark_summary t) found ≡ load_found from_json t found
unfolding load_failures_for_docs map_results load_row loaded_document
load_found-mark_summary from_json t none = refl
load_found-mark_summary from_json t (some row) = refl

pub load_document-mark_summary :
    {V W : Type 0} (from_json : Text → Result DocumentChecks) (t : Tables W) (id : Text)
    → load_document from_json {V = V} id (mark_summary t) ≡ load_document from_json id t
unfolding load_document
load_document-mark_summary from_json t id =
    load_found-mark_summary from_json t (find_row (has_tracking_id id) t.documents)

-- What is found is loaded.
pub load_document-found :
    {V W : Type 0} (from_json : Text → Result DocumentChecks) (t : Tables W) (id : Text)
    (row : DocumentRow) (checks : DocumentChecks)
    → find_row (has_tracking_id id) t.documents ≡ some row
    → from_json row.document_checks ≡ ok checks
    → load_document from_json {V = V} id t ≡ ok (some (loaded_document t row checks))
unfolding load_document load_failures_for_docs map_results load_row
load_document-found from_json t id row checks found read =
    ap (load_found from_json t) found ∙ rw read

module _ {V W : Type 0} (from_json : Text → Result DocumentChecks) where
  -- A row that is neither deleted nor new, and what belongs to it, is loaded as before.
  pub load_found-kept :
      (doc : DocumentValidation V) (n : ℕ) (new row : DocumentRow) (vulnerabilities : List W)
      (ids : List ℕ) (gone : DocumentRow → Bool) (t : Tables W)
      → new.id ≡ n
      → (n == row.id) ≡ false
      → is_in row.id ids ≡ false
      → load_found from_json {V = V}
          (insert_document new doc vulnerabilities (delete_all_owned ids gone t))
          (some row)
        ≡ load_found from_json t (some row)
  unfolding load_failures_for_docs map_results load_row loaded_document insert_document
  load_found-kept doc n new row vulnerabilities ids gone t same other stays = rw (
    same,
    owned-kept n row.id ids t.failures (all_failures doc) other stays,
    owned-kept n row.id ids t.revisions doc.metadata.revision_history other stays,
  )
