-- ===== src/Validation/Profiles.antt =====
-- `build_doc_profile_detail`, `build_document_validation` and the rest of `validate_provider` in
-- server/src/pipeline/validate.rs.
use csaf_trove.Base.{
  ℕ, suc, Bool, true, false, ◌||◌, Option, none, some, List, [], ◌∷◌, ◌++◌, length, any, is_some,
  add_u64, ◌==◌, if◌then◌else◌,
}
use csaf_trove.Base.Text.{Text, bytes, text_eq, to_decimal}
use csaf_trove.Base.Map
use csaf_trove.Base.Map.{Map}
use csaf_trove.Base.Effect.{Result, ok, err, ◌>>=◌, for_each, map_error}
use csaf_trove.Overview.{CheckStatus, failed_check, missing}
use csaf_trove.Validation.Integrity.{DocumentChecks}
use csaf_trove.Validation.Documents.{
  CheckError, CsafVersionTag, DocumentMetadata, DocumentResult, Verification, document_result,
}

pub record DocumentCheckFailure : Type 0 where
  pub test_id : Text
  pub message : Text
  pub severity : Text

pub record DocumentProfileDetail : Type 0 where
  pub passed : Bool
  pub error_count : ℕ
  pub warning_count : ℕ
  pub info_count : ℕ
  pub total_tests : ℕ
  pub failing_test_count : ℕ
  pub failing_tests : List DocumentCheckFailure

-- One of the three loops that push the failures of a severity.
unfoldable pub push_failures : Text → List CheckError → List DocumentCheckFailure
push_failures severity [] = []
push_failures severity (e ∷ es) =
    record { test_id = e.id; message = e.message; severity = severity } ∷ push_failures severity es

abbrev pub or_none : {A : Type 0} → Option (List A) → List A
or_none none = []
or_none (some xs) = xs

abbrev pub has_test : Text → List DocumentCheckFailure → Bool
has_test id tests = any (λ f. text_eq f.test_id id) tests

-- The size of the set of test identifiers.
unfoldable pub distinct_tests : List DocumentCheckFailure → ℕ
distinct_tests [] = 0
distinct_tests (f ∷ fs) =
    let rest = distinct_tests fs in if has_test f.test_id fs then rest else suc rest

-- The detail of a profile with issues.
unfoldable pub issue_detail :
    Option (List CheckError)
    → Option (List CheckError)
    → Option (List CheckError)
    → ℕ
    → DocumentProfileDetail
unfolding push_failures distinct_tests
issue_detail errors warnings infos total_tests =
    let failing_tests =
      push_failures (bytes "error") (or_none errors)
      ++ (push_failures (bytes "warning") (or_none warnings)
          ++ push_failures (bytes "info") (or_none infos)) in
    record {
      passed = false;
      error_count = length (or_none errors);
      warning_count = length (or_none warnings);
      info_count = length (or_none infos);
      total_tests = total_tests;
      failing_test_count = distinct_tests failing_tests;
      failing_tests = failing_tests;
    }

abbrev pub passed_detail : ℕ → DocumentProfileDetail
passed_detail total_tests = record {
  passed = true;
  error_count = 0;
  warning_count = 0;
  info_count = 0;
  total_tests = total_tests;
  failing_test_count = 0;
  failing_tests = [];
}

-- `DocumentValidation`, with its profiles and its metadata fields side by side.
pub record DocumentValidation (V : Type 0) : Type 0 where
  pub checks : DocumentChecks
  pub tracking_id : Text
  pub title : Text
  pub url : Text
  pub basic : Option DocumentProfileDetail
  pub extended : Option DocumentProfileDetail
  pub full : Option DocumentProfileDetail
  pub signature_error : Option Text
  pub signature_warning : Option Text
  pub signature_present : Bool
  pub metadata : DocumentMetadata
  pub vulnerabilities : List V
  pub version_count : ℕ
  pub retrieval_error : Option Text

-- What an error of the walker becomes.
abbrev pub walker_error : Text → Text → Text
walker_error domain e = bytes "Validation walker failed for " ++ (domain ++ (bytes ": " ++ e))

-- What `ensure!` reports.
unfoldable pub wrong_count : ℕ → ℕ → Text
unfolding to_decimal
wrong_count count expected =
    bytes "Validation processed "
    ++ (to_decimal count ++ (bytes " of " ++ (to_decimal expected ++ bytes " selected documents")))

-- `tests_in_preset` of the csaf crate: the number of tests of a profile, if it knows the profile.
module _ (tests_in_preset : CsafVersionTag → Text → Option ℕ) where
  abbrev or_zero : Option ℕ → ℕ
  or_zero none = 0
  or_zero (some n) = n

  -- `total_tests_for_profile`, or 0 without a version.
  unfoldable pub total_tests_for : Option CsafVersionTag → Text → ℕ
  total_tests_for none profile = 0
  total_tests_for (some version) profile = or_zero (tests_in_preset version profile)

  unfoldable pub profile_detail :
      Option (List CheckError)
      → Option (List CheckError)
      → Option (List CheckError)
      → Bool
      → ℕ
      → Option DocumentProfileDetail
  unfolding issue_detail
  profile_detail errors warnings infos listed total_tests =
      if is_some errors || (is_some warnings || is_some infos)
      then some (issue_detail errors warnings infos total_tests)
      else if listed
      then some (passed_detail total_tests)
      else none

  unfoldable pub build_doc_profile_detail :
      {V : Type 0} → DocumentResult V → Text → Option DocumentProfileDetail
  unfolding profile_detail total_tests_for Map.get
  build_doc_profile_detail doc profile =
      profile_detail (Map.get profile doc.failures) (Map.get profile doc.warnings)
        (Map.get profile doc.infos) (any (λ s. text_eq s profile) doc.successes)
        (total_tests_for doc.version_tag profile)

  abbrev pub is_retrieval_error : CheckStatus → Bool
  is_retrieval_error failed_check = true
  is_retrieval_error missing = true
  is_retrieval_error _ = false

  unfoldable pub build_document_validation : {V : Type 0} → DocumentResult V → DocumentValidation V
  unfolding build_doc_profile_detail
  build_document_validation doc = record {
    checks = doc.checks;
    tracking_id = doc.tracking_id;
    title = doc.title;
    url = doc.url;
    signature_error = doc.signature_error;
    signature_warning = doc.signature_warning;
    signature_present = doc.signature_present;
    metadata = doc.metadata;
    vulnerabilities = doc.vulnerabilities;
    basic = build_doc_profile_detail doc (bytes "basic");
    extended = build_doc_profile_detail doc (bytes "extended");
    full = build_doc_profile_detail doc (bytes "full");
    version_count = 1;
    retrieval_error =
        if is_retrieval_error doc.checks.retrieval.status
        then doc.checks.retrieval.message
        else none;
  }

  module _ {V S : Type 0} (original_url : Text → Text)
      (save_document : DocumentValidation V → S → Result S) (increment_job_validated : S → S) where
    -- The closure that the verifier runs on each result, with the count of documents.
    unfoldable pub validate_document : Verification V → S × ℕ → Result (S × ℕ)
    unfolding document_result build_document_validation
    validate_document v (s, count) = do
      doc ← document_result original_url v
      saved ← save_document (build_document_validation doc) s
      ok (increment_job_validated saved, add_u64 count 1)

    abbrev pub ensure_count : ℕ → S × ℕ → Result S
    ensure_count expected (s, count) =
        if count == expected then ok s else err (wrong_count count expected)

    -- `validate_provider`, but for the loading of keys, with the number of stored documents.
    unfoldable pub validate_provider :
        Text
        → (set_documents_total : ℕ → S → S) (document_count : S → Result ℕ) → List (Verification V)
        → ℕ
        → S
        → Result (S × ℕ)
    unfolding validate_document for_each
    validate_provider domain set_documents_total document_count walk expected s = do
      walked ←
          map_error (walker_error domain)
            (for_each validate_document walk (set_documents_total expected s, 0))
      checked ← ensure_count expected walked
      stored ← document_count checked
      ok (checked, stored)
