-- ===== src/Validation/Integrity.antt =====
-- `assess_integrity` and the outcomes of the digest and signature checks in
-- server/src/pipeline/validate.rs, with the records of common/src/document_checks.rs.
use csaf_trove.Base.{
  Bool, true, false, Option, none, some, List, [], ◌∷◌, ◌++◌, is_some, or_option, if◌then◌else◌,
}
use csaf_trove.Base.Text.{Text, bytes}
use csaf_trove.Base.Effect.{Result, ok, err}
use csaf_trove.Overview.{CheckStatus, passed, failed_check, warning, missing}

pub record CheckDetail : Type 0 where
  pub label : Text
  pub value : Text

pub record CheckOutcome : Type 0 where
  pub status : CheckStatus
  pub message : Option Text
  pub details : List CheckDetail

-- `CheckOutcome::new`
unfoldable pub new_outcome : CheckStatus → CheckOutcome
new_outcome status = record { status = status; message = none; details = [] }

-- `CheckOutcome::failed`
unfoldable pub failed_outcome : Text → CheckOutcome
failed_outcome message = record { status = failed_check; message = some message; details = [] }

-- `DocumentChecks`
pub record DocumentChecks : Type 0 where
  pub retrieval : CheckOutcome
  pub parsing : CheckOutcome
  pub signature : CheckOutcome
  pub digest : CheckOutcome

pub record IntegrityResult : Type 0 where
  pub present : Bool
  pub error : Option Text
  pub warning : Option Text

-- The variables of the loop of `assess_integrity`.
pub record Assessment : Type 0 where
  pub present : Bool
  pub passed : Bool
  pub failures : List Text

abbrev pub Check : Type 0
Check = Result (Unit {0})

unfoldable pub assess_check : Option Check → Assessment → Assessment
assess_check none a = a
assess_check (some (ok u)) a = record a { present = true; passed = true }
assess_check (some (err e)) a = record a { present = true; failures = a.failures ++ (e ∷ []) }

-- `failures.join("; ")`
unfoldable pub join_failures : List Text → Text
join_failures [] = []
join_failures (e ∷ []) = e
join_failures (e ∷ f ∷ fs) = e ++ (bytes "; " ++ join_failures (f ∷ fs))

abbrev pub message_of : List Text → Option Text
unfolding join_failures
message_of [] = none
message_of (e ∷ es) = some (join_failures (e ∷ es))

-- Failures are errors unless another check passed.
unfoldable pub conclude : Assessment → IntegrityResult
unfolding join_failures
conclude a = record {
  present = a.present;
  error = if a.passed then none else message_of a.failures;
  warning = if a.passed then message_of a.failures else none;
}

unfoldable pub assess_integrity : Option Check → Option Check → IntegrityResult
unfolding assess_check conclude
assess_integrity sha256 sha512 = conclude (
    assess_check sha512
      (assess_check sha256 (record { present = false; passed = false; failures = [] })))

-- A supplied digest: the published value, the computed one, and the two that `validate_digest` of
-- walker_common reports if they differ.
pub record Digest : Type 0 where
  pub expected : Text
  pub actual : Text
  pub mismatch : Option (Text × Text)

unfoldable pub digest_check : Text → Option Digest → Option Check
digest_check algorithm none = none
digest_check algorithm (some digest) = elim digest.mismatch [
  | none ↦ some (ok tt)
  | some (expected, actual) ↦ some (
      err (algorithm ++ (bytes " mismatch: expected " ++ (expected ++ (bytes ", got " ++ actual)))))
]

-- The UTF-8 bytes of a middle dot between two spaces.
abbrev pub dot : Text
dot = 32 ∷ 194 ∷ 183 ∷ 32 ∷ []

unfoldable pub digest_details : Text → Option Digest → List CheckDetail
digest_details algorithm none = record { label = algorithm; value = bytes "Not supplied" } ∷ []
digest_details algorithm (some digest) =
    record { label = algorithm ++ (dot ++ bytes "Published"); value = digest.expected }
    ∷ record { label = algorithm ++ (dot ++ bytes "Computed"); value = digest.actual }
    ∷ []

unfoldable pub digest_status : IntegrityResult → CheckStatus
digest_status i =
    if is_some i.error
    then failed_check
    else if is_some i.warning
    then warning
    else if i.present
    then passed
    else missing

unfoldable pub digest_outcome : Option Digest → Option Digest → IntegrityResult → CheckOutcome
unfolding digest_details digest_status
digest_outcome sha256 sha512 i = record {
  status = digest_status i;
  message = or_option i.error i.warning;
  details = digest_details (bytes "SHA-256") sha256 ++ digest_details (bytes "SHA-512") sha512;
}

-- The message of an invalid signature in front of that of the digests.
unfoldable pub combined_error : Text → Option Text → Text
combined_error message none = message
combined_error message (some digest_error) = message ++ (bytes "; " ++ digest_error)

abbrev pub invalid_signature : Text → Text
invalid_signature e = bytes "Invalid signature: " ++ e

-- What `validate_signature` finds for a supplied signature.
unfoldable pub signed : Check → IntegrityResult → IntegrityResult
unfolding combined_error
signed (ok u) i = record i { present = true }
signed (err e) i = record i {
  present = true;
  error = some (combined_error (invalid_signature e) i.error);
}

unfoldable pub verify_signature : Option Text → Check → IntegrityResult → IntegrityResult
unfolding signed
verify_signature none check i = i
verify_signature (some signature) check i = signed check i

abbrev pub signature_verdict : Check → CheckOutcome
unfolding new_outcome failed_outcome
signature_verdict (ok u) = new_outcome passed
signature_verdict (err e) = failed_outcome (invalid_signature e)

unfoldable pub signature_outcome : Option Text → Check → CheckOutcome
unfolding new_outcome failed_outcome
signature_outcome none check = new_outcome missing
signature_outcome (some signature) check =
    let verdict = signature_verdict check in
    record verdict {
      details =
          verdict.details ++ (record { label = bytes "OpenPGP signature"; value = signature } ∷ []);
    }
