-- ===== src/Storage/Documents.antt =====
-- The tables of documents in server/src/storage/documents.rs: saving, deleting and loading them. A
-- table is the list of its rows in the order of their keys. A transaction that fails changes nothing.
-- The JSON of serde is a parameter; a signed column holds the bits that a cast leaves alone.
pub mod Store
pub mod Failures
pub mod Load
pub mod Rows
pub mod Valid
pub mod Kept
pub mod Changes
pub mod Details
pub mod Loaded
pub mod Roundtrip
use csaf_trove.Base.{
  ℕ, zero, suc, ◌+◌, Bool, true, false, ◌&&◌, ◌||◌, not, Option, none, some, List, [], ◌∷◌, ◌++◌,
  map, length, any, retain, ◌==◌, leb, ltb, if◌then◌else◌,
}
use csaf_trove.Base.Text.{Text, bytes, text_eq, starts_with}
use csaf_trove.Base.Effect.{Result, ok, err, ◌>>=◌, for_each}
use csaf_trove.Overview.{CheckStatus, passed, failed_check, missing, not_evaluated}
use csaf_trove.Runner.World.{RetrievalFailure}
use csaf_trove.Validation.Integrity.{DocumentChecks, CheckOutcome, new_outcome}
use csaf_trove.Validation.Documents.{DocumentMetadata, no_metadata, id_of_url}
use csaf_trove.Validation.Profiles.{DocumentCheckFailure, DocumentProfileDetail, DocumentValidation}

pub record ProfileColumns : Type 0 where
  pub passed : Option ℕ
  pub error_count : Option ℕ
  pub warning_count : Option ℕ
  pub info_count : Option ℕ
  pub test_count : Option ℕ
  pub failing_test_count : Option ℕ

abbrev no_columns : ProfileColumns
no_columns = record {
  passed = none;
  error_count = none;
  warning_count = none;
  info_count = none;
  test_count = none;
  failing_test_count = none;
}

-- A row of `documents`. The revision history is a table of its own, and empty in `metadata`.
pub record DocumentRow : Type 0 where
  pub id : ℕ
  pub tracking_id : Text
  pub title : Text
  pub url : Text
  pub document_checks : Text
  pub basic : ProfileColumns
  pub extended : ProfileColumns
  pub full : ProfileColumns
  pub signature_present : ℕ
  pub signature_error : Option Text
  pub signature_warning : Option Text
  pub metadata : DocumentMetadata
  pub retrieval_error : Option Text
  pub version_count : ℕ

-- A row of a table with a foreign key to `documents`.
pub record Owned (A : Type 0) : Type 0 where
  pub document_id : ℕ
  pub entry : A

-- A row of `check_failures`.
pub record StoredFailure : Type 0 where
  pub profile : Text
  pub failure : DocumentCheckFailure

-- `W` is the type of the rows of vulnerabilities, `dirty` the column `summary_dirty` of the
-- checkpoint, if there is one. Keys are never used again.
pub record Tables (W : Type 0) : Type 0 where
  pub documents : List DocumentRow
  pub failures : List (Owned StoredFailure)
  pub revisions : List (Owned (Text × Text × Text))
  pub vulnerabilities : List (Owned W)
  pub next_id : ℕ
  pub dirty : Option Bool

abbrev pub bit : Bool → ℕ
bit true = 1
bit false = 0

unfoldable pub profile_to_cols : Option DocumentProfileDetail → ProfileColumns
profile_to_cols none = no_columns
profile_to_cols (some d) = record {
  passed = some (bit d.passed);
  error_count = some d.error_count;
  warning_count = some d.warning_count;
  info_count = some d.info_count;
  test_count = some d.total_tests;
  failing_test_count = some d.failing_test_count;
}

abbrev columns_of : DocumentRow → Text → Option ProfileColumns
columns_of row profile =
    if text_eq profile (bytes "basic")
    then some row.basic
    else if text_eq profile (bytes "extended")
    then some row.extended
    else if text_eq profile (bytes "full")
    then some row.full
    else none

abbrev pub or_zero : Option ℕ → ℕ
or_zero none = 0
or_zero (some n) = n

abbrev pub of_profile : Text → List StoredFailure → List DocumentCheckFailure
of_profile profile rows =
    map (λ (f : StoredFailure). f.failure) (retain (λ f. text_eq f.profile profile) rows)

abbrev pub detail_of :
    ProfileColumns → List DocumentCheckFailure → Option ℕ → Option DocumentProfileDetail
detail_of cols failing_tests none = none
detail_of cols failing_tests (some value) = some (record {
  passed = not (value == 0);
  error_count = or_zero cols.error_count;
  warning_count = or_zero cols.warning_count;
  info_count = or_zero cols.info_count;
  total_tests = or_zero cols.test_count;
  failing_test_count = or_zero cols.failing_test_count;
  failing_tests = failing_tests;
})

abbrev pub detail_from :
    Option ProfileColumns → List DocumentCheckFailure → Option DocumentProfileDetail
detail_from none failing_tests = none
detail_from (some cols) failing_tests = detail_of cols failing_tests cols.passed

unfoldable pub cols_to_profile :
    DocumentRow → List StoredFailure → Text → Option DocumentProfileDetail
unfolding text_eq
cols_to_profile row failures profile =
    detail_from (columns_of row profile) (of_profile profile failures)

-- The entries that belong to a document.
unfoldable pub owned : {A : Type 0} → ℕ → List (Owned A) → List A
owned id [] = []
owned id (c ∷ cs) = let rest = owned id cs in if c.document_id == id then c.entry ∷ rest else rest

unfoldable pub own : {A : Type 0} → ℕ → List A → List (Owned A)
own id [] = []
own id (a ∷ rest) = record { document_id = id; entry = a } ∷ own id rest

-- `IN (...)`
abbrev pub is_in : ℕ → List ℕ → Bool
is_in id ids = any (λ i. i == id) ids

unfoldable pub delete_owned : {A : Type 0} → List ℕ → List (Owned A) → List (Owned A)
delete_owned ids [] = []
delete_owned ids (c ∷ cs) =
    let rest = delete_owned ids cs in if is_in c.document_id ids then rest else c ∷ rest

-- The keys of the rows that match.
unfoldable pub select_ids : (DocumentRow → Bool) → List DocumentRow → List ℕ
select_ids p [] = []
select_ids p (row ∷ rows) = let rest = select_ids p rows in if p row then row.id ∷ rest else rest

-- `DELETE` of the rows that match.
unfoldable pub delete_rows : (DocumentRow → Bool) → List DocumentRow → List DocumentRow
delete_rows p [] = []
delete_rows p (row ∷ rows) = let rest = delete_rows p rows in if p row then rest else row ∷ rest

-- `.one()`: the first row that matches.
unfoldable pub find_row : (DocumentRow → Bool) → List DocumentRow → Option DocumentRow
find_row p [] = none
find_row p (row ∷ rows) = let rest = find_row p rows in if p row then some row else rest

abbrev pub has_url : Text → DocumentRow → Bool
has_url url row = text_eq row.url url

abbrev pub has_tracking_id : Text → DocumentRow → Bool
has_tracking_id id row = text_eq row.tracking_id id

-- `UPDATE processing_checkpoint SET summary_dirty = 1`
abbrev set_dirty : Option Bool → Option Bool
set_dirty none = none
set_dirty (some dirty) = some true

module _ {W : Type 0} where
  abbrev pub delete_all_owned : List ℕ → (DocumentRow → Bool) → Tables W → Tables W
  delete_all_owned ids p t = record t {
    documents = delete_rows p t.documents;
    failures = delete_owned ids t.failures;
    revisions = delete_owned ids t.revisions;
    vulnerabilities = delete_owned ids t.vulnerabilities;
  }

  -- The documents that match and what belongs to them, if there are any.
  abbrev pub delete_ids : List ℕ → (DocumentRow → Bool) → Tables W → Tables W
  delete_ids [] p t = t
  delete_ids (i ∷ ids) p t = delete_all_owned (i ∷ ids) p t

  unfoldable pub delete_matching : (DocumentRow → Bool) → Tables W → Tables W
  unfolding select_ids delete_owned delete_rows
  delete_matching p t = delete_ids (select_ids p t.documents) p t

  abbrev pub mark_summary : Tables W → Tables W
  mark_summary t = record t { dirty = set_dirty t.dirty }

  -- The source deletes from one table after the other, without a transaction; this is the outcome
  -- when none of the deletes fails.
  unfoldable pub delete_all_documents : Tables W → Tables W
  delete_all_documents t = record t {
    documents = [];
    failures = [];
    revisions = [];
    vulnerabilities = [];
  }

  -- `document_count`, and `document_url`.
  unfoldable pub count_documents : Tables W → ℕ
  count_documents t = length t.documents

  unfoldable pub document_url : Text → Tables W → Option Text
  unfolding find_row
  document_url tracking_id t = elim (find_row (has_tracking_id tracking_id) t.documents) [
    | none ↦ none
    | some row ↦ some row.url
  ]

  abbrev pub delete_found : Text → List ℕ → Tables W → Tables W
  delete_found url [] t = t
  delete_found url (i ∷ ids) t = mark_summary (delete_all_owned (i ∷ ids) (has_url url) t)

  abbrev pub delete_document_url : Text → Tables W → Tables W
  delete_document_url url t = delete_found url (select_ids (has_url url) t.documents) t

  -- `Storage::delete_document_urls`
  unfoldable pub delete_document_urls : List Text → Tables W → Tables W
  unfolding select_ids delete_owned delete_rows
  delete_document_urls [] t = t
  delete_document_urls (url ∷ urls) t = delete_document_urls urls (delete_document_url url t)
