-- ===== src/Examples/Documents.antt =====
-- The tables of documents with two rows.
use mathlib.Core.Path.{subst}
use csaf_trove.Base.{
  ◌≡◌, refl, sym, ℕ, ◌<◌, Bool, true, false, ◌&&◌, not, Option, none, some, List, [], ◌∷◌, any, All,
  arith, ◌==◌, if◌then◌else◌,
}
use csaf_trove.Base.Text.{Text, bytes, text_eq}
use csaf_trove.Base.Effect.{Result, ok, err, ok-injective}
use csaf_trove.Overview.{CheckStatus, passed, failed_check, warning, missing, not_evaluated}
use csaf_trove.Validation.Integrity.{DocumentChecks, CheckOutcome}
use csaf_trove.Validation.Documents.{no_metadata}
use csaf_trove.Validation.Profiles.{DocumentProfileDetail, DocumentValidation}
use csaf_trove.Storage.Identifiers.{lossy_tracking_id}
use csaf_trove.Storage.Documents.{
  ProfileColumns, DocumentRow, Tables, profile_to_cols, has_tracking_id,
}
use csaf_trove.Storage.Documents.Store.{same_document, save_documents}
use csaf_trove.Storage.Documents.Load.{load_document}
use csaf_trove.Storage.Documents.Valid.{IsValid}
use csaf_trove.Storage.Documents.Changes.{
  Change, saved, unavailable, deleted, apply_changes, apply_changes-IsValid,
}
use csaf_trove.Storage.Documents.Loaded.{as_loaded}
use csaf_trove.Storage.Documents.Roundtrip.{kept_count, load_document-save_documents}

lossy_tracking_id_tests : lossy_tracking_id (bytes "RHSA-2024:1") ≡ bytes "rhsa-2024_1"
unfolding lossy_tracking_id
lossy_tracking_id_tests = refl

-- The two signs beyond ASCII whose lower case has an ASCII letter, and one other.
lossy_wide_tests : lossy_tracking_id (196 ∷ 176 ∷ 226 ∷ 132 ∷ 170 ∷ 195 ∷ 164 ∷ []) ≡ bytes "i_k_"
unfolding lossy_tracking_id
lossy_wide_tests = refl

-- A serialization of the statuses.
abbrev code : CheckStatus → ℕ
code passed = 0
code failed_check = 1
code warning = 2
code missing = 3
code not_evaluated = 4

abbrev to_json : DocumentChecks → Result Text
to_json c = ok (
    code c.retrieval.status
    ∷ code c.parsing.status
    ∷ code c.signature.status
    ∷ code c.digest.status
    ∷ [])

abbrev decode : ℕ → CheckStatus
decode n =
    if n == 0
    then passed
    else if n == 1
    then failed_check
    else if n == 2
    then warning
    else if n == 3
    then missing
    else not_evaluated

abbrev outcome : CheckStatus → CheckOutcome
outcome status = record { status = status; message = none; details = [] }

abbrev from_json : Text → Result DocumentChecks
from_json (r ∷ p ∷ s ∷ d ∷ []) = ok (record {
  retrieval = outcome (decode r);
  parsing = outcome (decode p);
  signature = outcome (decode s);
  digest = outcome (decode d);
})
from_json _ = err (bytes "checks")

abbrev detail : DocumentProfileDetail
detail = record {
  passed = false;
  error_count = 1;
  warning_count = 0;
  info_count = 0;
  total_tests = 40;
  failing_test_count = 1;
  failing_tests =
      record { test_id = bytes "6.1.1"; message = bytes "m"; severity = bytes "error" } ∷ [];
}

abbrev a_document : DocumentValidation Text
a_document = record {
  checks = record {
    retrieval = outcome passed;
    parsing = outcome passed;
    signature = outcome missing;
    digest = outcome passed;
  };
  tracking_id = bytes "A-1";
  title = bytes "A";
  url = bytes "https://a.example/a-1.json";
  basic = some detail;
  extended = none;
  full = none;
  signature_error = none;
  signature_warning = none;
  signature_present = true;
  metadata = record no_metadata {
    revision_history = (bytes "1", bytes "2024", bytes "first") ∷ [];
  };
  vulnerabilities = bytes "CVE-2024-1" ∷ [];
  version_count = 1;
  retrieval_error = none;
}

abbrev pub columns : ProfileColumns
unfolding profile_to_cols
columns = profile_to_cols none

abbrev pub a_row : ℕ → Text → Text → DocumentRow
a_row id tracking_id url = record {
  id = id;
  tracking_id = tracking_id;
  title = bytes "old";
  url = url;
  document_checks = 0 ∷ 0 ∷ 3 ∷ 0 ∷ [];
  basic = columns;
  extended = columns;
  full = columns;
  signature_present = 0;
  signature_error = none;
  signature_warning = none;
  metadata = no_metadata;
  retrieval_error = none;
  version_count = 5;
}

-- Another document, and an older row of the first one with a failure.
abbrev tables : Tables Text
tables = record {
  documents =
      a_row 1 (bytes "B") (bytes "https://a.example/b.json")
      ∷ a_row 2 (bytes "a-1") (bytes "https://a.example/a-1.json")
      ∷ [];
  failures =
      record {
        document_id = 2;
        entry = record {
          profile = bytes "full";
          failure = record {
            test_id = bytes "6.1.2";
            message = bytes "n";
            severity = bytes "error";
          };
        };
      }
      ∷ [];
  revisions = [];
  vulnerabilities = record { document_id = 1; entry = bytes "CVE-2024-2" } ∷ [];
  next_id = 3;
  dirty = some false;
}

abbrev tables-IsValid : IsValid tables
unfolding text_eq
tables-IsValid = record {
  keyed = ((refl, tt), (tt, tt));
  below = (omega arith, (omega arith, tt));
  urls = ((refl, tt), (tt, tt));
  failures = (refl, tt);
  revisions = tt;
  vulnerabilities = (refl, tt);
}

abbrev saved_tables : Tables Text
unfolding profile_to_cols
saved_tables = record {
  documents =
      a_row 1 (bytes "B") (bytes "https://a.example/b.json")
      ∷ record (a_row 3 (bytes "A-1") (bytes "https://a.example/a-1.json")) {
        title = bytes "A";
        basic = profile_to_cols (some detail);
        signature_present = 1;
      }
      ∷ [];
  failures =
      record {
        document_id = 3;
        entry = record {
          profile = bytes "basic";
          failure = record {
            test_id = bytes "6.1.1";
            message = bytes "m";
            severity = bytes "error";
          };
        };
      }
      ∷ [];
  revisions = record { document_id = 3; entry = (bytes "1", bytes "2024", bytes "first") } ∷ [];
  vulnerabilities =
      record { document_id = 1; entry = bytes "CVE-2024-2" }
      ∷ record { document_id = 3; entry = bytes "CVE-2024-1" }
      ∷ [];
  next_id = 4;
  dirty = some true;
}

abbrev to_row : Text → Result Text
to_row cve = ok cve

saves : save_documents to_json to_row (a_document ∷ []) tables ≡ ok (saved_tables, 2)
unfolding save_documents text_eq csaf_trove.Base.Text.starts_with
saves = refl

other_stays :
    (text_eq (bytes "A-1") (bytes "B") ≡ false)
    × (any (λ row. has_tracking_id (bytes "B") row && same_document a_document row) tables.documents
        ≡ false)
unfolding same_document text_eq csaf_trove.Base.Text.starts_with
other_stays = (refl, refl)

load_document-save_documents_example :
    (load_document from_json (bytes "A-1") saved_tables
      ≡ ok (some (as_loaded a_document (kept_count a_document tables))))
    × (load_document from_json {V = Text} (bytes "B") saved_tables
        ≡ load_document from_json (bytes "B") tables)
load_document-save_documents_example =
    load_document-save_documents to_json from_json to_row a_document tables saved_tables 2
      (bytes "B") tables-IsValid
      (λ checks written.
        subst (λ (c : Text). from_json c ≡ ok a_document.checks) (ok-injective written) refl)
      other_stays.0 other_stays.1 saves

abbrev changes : List (Change Text)
changes =
    saved (a_document ∷ [])
    ∷ unavailable (
        record { url = bytes "https://a.example/c.json"; error = bytes "404"; missing = true } ∷ [])
    ∷ deleted (bytes "https://a.example/c.json" ∷ [])
    ∷ []

applies : apply_changes to_json to_row changes tables ≡ ok (record saved_tables { next_id = 5 })
unfolding apply_changes text_eq csaf_trove.Base.Text.starts_with
applies = refl

apply_changes-IsValid_example : IsValid (record saved_tables { next_id = 5 })
apply_changes-IsValid_example =
    apply_changes-IsValid to_json to_row changes tables (record saved_tables { next_id = 5 })
      tables-IsValid applies
