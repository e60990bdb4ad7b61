-- ===== src/Validation/Documents.antt =====
-- The closure of `validate_provider` and what it makes of a document, in
-- server/src/pipeline/validate.rs. The verification of csaf_walker is a list of its results.
use csaf_trove.Base.{ℕ, zero, suc, Bool, false, Option, none, some, List, [], ◌++◌, length}
use csaf_trove.Base.Text.{Text, bytes, strip_suffix}
use csaf_trove.Base.Map.{Map}
use csaf_trove.Base.Effect.{Result, ok, err}
use csaf_trove.Overview.{passed, not_evaluated}
use csaf_trove.GitRepo.Scratch.{file_name}
use csaf_trove.Validation.Integrity.{
  new_outcome, failed_outcome, DocumentChecks, IntegrityResult, Check, assess_integrity, Digest,
  digest_check, digest_outcome, verify_signature, signature_outcome,
}

-- `CheckError` of csaf_walker.
pub record CheckError : Type 0 where
  pub id : Text
  pub message : Text

pub data CsafVersionTag : Type 0 where
  v2_0 v2_1 : CsafVersionTag

-- `DocumentMetadata`, and the revision entries as pairs of their texts.
pub record DocumentMetadata : Type 0 where
  pub category : Option Text
  pub publisher_name : Option Text
  pub initial_release_date : Option Text
  pub current_release_date : Option Text
  pub status : Option Text
  pub revision : Option Text
  pub aggregate_severity : Option Text
  pub csaf_version : Option Text
  pub revision_history : List (Text × Text × Text)

abbrev pub no_metadata : DocumentMetadata
no_metadata = record {
  category = none;
  publisher_name = none;
  initial_release_date = none;
  current_release_date = none;
  status = none;
  revision = none;
  aggregate_severity = none;
  csaf_version = none;
  revision_history = [];
}

-- What is read of a `VerifiedAdvisory`; `signature_check` is the outcome of `validate_signature`,
-- `vulnerabilities` that of `extract_vulnerability_index`. `V` is the type of its entries.
pub record Verified (V : Type 0) : Type 0 where
  pub url : Text
  pub tracking_id : Text
  pub title : Text
  pub version : CsafVersionTag
  pub metadata : DocumentMetadata
  pub vulnerabilities : Result (List V)
  pub sha256 : Option Digest
  pub sha512 : Option Digest
  pub signature : Option Text
  pub signature_check : Check
  pub errors : Map (List CheckError)
  pub warnings : Map (List CheckError)
  pub infos : Map (List CheckError)
  pub successes : List Text

-- `VerificationError`, each with its URL and its text.
pub data Verification (V : Type 0) : Type 0 where
  verified : Verified V → Verification V
  parsing upstream check : (url error : Text) → Verification V

-- `DocumentResult`, with its metadata fields in one record.
pub record DocumentResult (V : Type 0) : Type 0 where
  pub checks : DocumentChecks
  pub tracking_id : Text
  pub title : Text
  pub url : Text
  pub failures : Map (List CheckError)
  pub warnings : Map (List CheckError)
  pub infos : Map (List CheckError)
  pub successes : List Text
  pub version_tag : Option CsafVersionTag
  pub signature_error : Option Text
  pub signature_warning : Option Text
  pub signature_present : Bool
  pub metadata : DocumentMetadata
  pub vulnerabilities : List V

-- `trim_end_matches`: as often as the text ends with the suffix, by the length that is left.
abbrev trim_ends : ℕ → Text → Text → Text
trim_ends zero suffix s = s
trim_ends (suc fuel) suffix s = elim (strip_suffix s suffix) [
  | none ↦ s
  | some rest ↦ trim_ends fuel suffix rest
]

unfoldable pub id_of_url : Text → Text
unfolding file_name strip_suffix
id_of_url url = trim_ends (length (file_name url)) (bytes ".json") (file_name url)

module _ {V : Type 0} (original_url : Text → Text) where
  abbrev or_no_entries : Result (List V) → List V
  or_no_entries (ok entries) = entries
  or_no_entries (err e) = []

  abbrev pub digest_integrity : Verified V → IntegrityResult
  unfolding assess_integrity digest_check
  digest_integrity v =
      assess_integrity (digest_check (bytes "SHA-256") v.sha256)
        (digest_check (bytes "SHA-512") v.sha512)

  -- A document that was verified.
  unfoldable pub verified_result : Verified V → DocumentResult V
  unfolding verify_signature signature_outcome digest_outcome new_outcome assess_integrity
      digest_check
  verified_result v =
      let digests =
        assess_integrity (digest_check (bytes "SHA-256") v.sha256)
          (digest_check (bytes "SHA-512") v.sha512) in
      let integrity = verify_signature v.signature v.signature_check digests in
      record {
        checks = record {
          retrieval = new_outcome passed;
          parsing = new_outcome passed;
          signature = signature_outcome v.signature v.signature_check;
          digest = digest_outcome v.sha256 v.sha512 digests;
        };
        tracking_id = v.tracking_id;
        title = v.title;
        url = original_url v.url;
        failures = v.errors;
        warnings = v.warnings;
        infos = v.infos;
        successes = v.successes;
        version_tag = some v.version;
        signature_error = integrity.error;
        signature_warning = integrity.warning;
        signature_present = integrity.present;
        metadata = v.metadata;
        vulnerabilities = or_no_entries v.vulnerabilities;
      }

  -- The identifier of a document that could not be read is the name of its file.
  unfoldable pub failed_result : Text → DocumentChecks → Text → Option Text → DocumentResult V
  unfolding id_of_url
  failed_result url checks title signature_error = record {
    checks = checks;
    tracking_id = id_of_url (original_url url);
    title = title;
    url = original_url url;
    failures = [];
    warnings = [];
    infos = [];
    successes = [];
    version_tag = none;
    signature_error = signature_error;
    signature_warning = none;
    signature_present = false;
    metadata = no_metadata;
    vulnerabilities = [];
  }

  -- A check that could not run ends the validation.
  unfoldable pub document_result : Verification V → Result (DocumentResult V)
  unfolding verified_result failed_result failed_outcome new_outcome
  document_result (verified v) = ok (verified_result v)
  document_result (parsing url e) = ok (
      failed_result url
        (record {
          retrieval = new_outcome passed;
          parsing = failed_outcome e;
          signature = new_outcome not_evaluated;
          digest = new_outcome not_evaluated;
        })
        (bytes "Parse error: " ++ e) (some (bytes "Document error: " ++ e)))
  document_result (upstream url e) = ok (
      failed_result url
        (record {
          retrieval = failed_outcome e;
          parsing = new_outcome not_evaluated;
          signature = new_outcome not_evaluated;
          digest = new_outcome not_evaluated;
        })
        (bytes "Retrieval failed") none)
  document_result (check url e) =
      err (bytes "Validation could not complete for " ++ (original_url url ++ (bytes ": " ++ e)))
