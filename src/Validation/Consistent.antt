-- ===== src/Validation/Consistent.antt =====
-- The outcomes of a verified document and the fields that sum them up agree.
use csaf_trove.Base.{
  ◌≡◌, refl, sym, ap, ◌∙◌, Bool, true, false, ◌||◌, not, Option, none, some, is_some, arith,
}
use csaf_trove.Base.Text.{Text, bytes}
use csaf_trove.Base.Effect.{ok, err}
use csaf_trove.Overview.{CheckStatus, passed, failed_check, warning, missing, not_evaluated}
use csaf_trove.Validation.Integrity.{
  IntegrityResult, Check, assess_check, conclude, assess_integrity, digest_check, digest_status,
  digest_outcome, signed, verify_signature, signature_outcome,
}
use csaf_trove.Validation.Documents.{Verified, DocumentResult, verified_result}

abbrev pub matches : Option Check → Bool
matches (some (ok u)) = true
matches (some (err e)) = false
matches none = false

abbrev pub differs : Option Check → Bool
differs (some (err e)) = true
differs (some (ok u)) = false
differs none = false

-- The status of two digests by whether one matches and whether one differs.
abbrev pub digests_status : (matching differing : Bool) → CheckStatus
digests_status true true = warning
digests_status true false = passed
digests_status false true = failed_check
digests_status false false = missing

abbrev pub is_failed : CheckStatus → Bool
is_failed failed_check = true
is_failed passed = false
is_failed warning = false
is_failed missing = false
is_failed not_evaluated = false

abbrev pub is_missing : CheckStatus → Bool
is_missing missing = true
is_missing passed = false
is_missing warning = false
is_missing failed_check = false
is_missing not_evaluated = false

abbrev pub is_warning : CheckStatus → Bool
is_warning warning = true
is_warning passed = false
is_warning missing = false
is_warning failed_check = false
is_warning not_evaluated = false

-- What the integrity of two digests says.
record IsAssessed (first second : Option Check) (i : IntegrityResult) : Type 0 where
  status :
      digest_status i
      ≡ digests_status (matches first || matches second) (differs first || differs second)
  error : is_some i.error ≡ is_failed (digest_status i)
  tolerated : is_some i.warning ≡ is_warning (digest_status i)
  present : i.present ≡ not (is_missing (digest_status i))

assess_integrity-IsAssessed :
    (first second : Option Check) → IsAssessed first second (assess_integrity first second)
unfolding assess_integrity assess_check conclude digest_status
assess_integrity-IsAssessed first second = ground arith

-- The status of a signature: nobody's, or what its verification says.
abbrev pub signature_status : Option Text → Check → CheckStatus
signature_status none check = missing
signature_status (some signature) (ok u) = passed
signature_status (some signature) (err e) = failed_check

record IsVerified (signature : Option Text) (check : Check) (digests i : IntegrityResult)
    : Type 0 where
  status : (signature_outcome signature check).status ≡ signature_status signature check
  error : is_some i.error ≡ (is_failed (signature_status signature check) || is_some digests.error)
  tolerated : i.warning ≡ digests.warning
  present : i.present ≡ (not (is_missing (signature_status signature check)) || digests.present)

verify_signature-IsVerified :
    (signature : Option Text) (check : Check) (digests : IntegrityResult)
    → IsVerified signature check digests (verify_signature signature check digests)
unfolding verify_signature signed signature_outcome
verify_signature-IsVerified none check digests = record {
  status = refl;
  error = refl;
  tolerated = refl;
  present = refl;
}
verify_signature-IsVerified (some signature) (ok u) digests = record {
  status = refl;
  error = refl;
  tolerated = refl;
  present = refl;
}
verify_signature-IsVerified (some signature) (err e) digests = record {
  status = refl;
  error = refl;
  tolerated = refl;
  present = refl;
}

module _ {V : Type 0} where
  -- Which supplied digests of a document match, and which differ.
  abbrev pub sha256_check : Verified V → Option Check
  sha256_check v = digest_check (bytes "SHA-256") v.sha256

  abbrev pub sha512_check : Verified V → Option Check
  sha512_check v = digest_check (bytes "SHA-512") v.sha512

  -- The outcomes, and the fields that sum them up.
  pub record IsConsistent (v : Verified V) (doc : DocumentResult V) : Type 0 where
    pub digest :
        doc.checks.digest.status
        ≡ digests_status
            (matches (sha256_check v) || matches (sha512_check v))
            (differs (sha256_check v) || differs (sha512_check v))
    pub signature : doc.checks.signature.status ≡ signature_status v.signature v.signature_check
    pub error :
        is_some doc.signature_error
        ≡ (is_failed doc.checks.signature.status || is_failed doc.checks.digest.status)
    pub tolerated : is_some doc.signature_warning ≡ is_warning doc.checks.digest.status
    pub present : doc.signature_present ≡ (
        not (is_missing doc.checks.signature.status) || not (is_missing doc.checks.digest.status))

  -- The digest of a verified document passes if one is supplied and all that are match, is a warning
  -- if one matches and one differs, fails if all that are supplied differ, and is missing if there
  -- is none. The signature passes or fails by its own verification, whatever the digests say, and
  -- is missing if there is none. The document has an error exactly if one of the two fails, a
  -- warning exactly if the digest is one, and something to check exactly if not both are missing.
  pub verified_result-IsConsistent :
      (original_url : Text → Text) (v : Verified V)
      → IsConsistent v (verified_result original_url v)
  unfolding verified_result digest_outcome
  verified_result-IsConsistent original_url v =
      let digests = assess_integrity (sha256_check v) (sha512_check v) in
      let d = assess_integrity-IsAssessed (sha256_check v) (sha512_check v) in
      let s = verify_signature-IsVerified v.signature v.signature_check digests in
      record {
        digest = d.status;
        signature = s.status;
        error =
            s.error
            ∙ ap (λ (b : Bool). is_failed (signature_status v.signature v.signature_check) || b)
                d.error
            ∙ ap (λ (c : CheckStatus). is_failed c || is_failed (digest_status digests))
                (sym s.status);
        tolerated = ap is_some s.tolerated ∙ d.tolerated;
        present =
            s.present
            ∙ ap
                (λ (b : Bool).
                  not (is_missing (signature_status v.signature v.signature_check)) || b)
                d.present
            ∙ ap
                (λ (c : CheckStatus).
                  not (is_missing c) || not (is_missing (digest_status digests)))
                (sym s.status);
      }
