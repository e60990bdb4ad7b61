-- ===== src/Validation/Provider.antt =====
-- A validation that succeeds has stored every selected document, once and in order.
use mathlib.Core.Path.{subst}
use csaf_trove.Base.{
  ℕ, ◌+◌, ◌<◌, ◌≡◌, sym, ap, ◌∙◌, Bool, true, false, refl, List, [], ◌∷◌, length, add_u64, u64_mod,
  add_u64-eq_of_lt, ==_iff, ◌==◌, arith, Bool-cases, Option, inl, inr, if◌then◌else◌,
}
use csaf_trove.Base.Text.{Text}
use csaf_trove.Base.Effect.{
  Result, ok, err, ◌>>=◌, >>=-eq-ok, for_each, ok-injective, map_error-eq-ok,
}
use csaf_trove.Validation.Documents.{
  CsafVersionTag, DocumentResult, Verification, verified, parsing, upstream, check, document_result,
}
use csaf_trove.Validation.Profiles.{
  DocumentValidation, build_document_validation, validate_document, walker_error, wrong_count,
  ensure_count, validate_provider,
}

module _ {V : Type 0} (original_url : Text → Text) where
  -- Whether the check of a document came to an end, if only with a failure.
  abbrev pub could_run : Verification V → Bool
  could_run (verified v) = true
  could_run (parsing url e) = true
  could_run (upstream url e) = true
  could_run (check url e) = false

  document_result-could_run :
      (v : Verification V) (doc : DocumentResult V)
      → document_result original_url v ≡ ok doc
      → could_run v ≡ true
  unfolding document_result
  document_result-could_run (verified v) doc h = refl
  document_result-could_run (parsing url e) doc h = refl
  document_result-could_run (upstream url e) doc h = refl
  document_result-could_run (check url e) doc h = cc

  -- The documents of a walk, if none of its checks could not run.
  pub data Results : List (Verification V) → List (DocumentResult V) → Type 0 where
    none_left : Results [] []
    next :
        {v : Verification V} {doc : DocumentResult V} {walk : List (Verification V)}
        {docs : List (DocumentResult V)}
        → could_run v ≡ true
        → document_result original_url v ≡ ok doc
        → Results walk docs
        → Results (v ∷ walk) (doc ∷ docs)

module _ {V S : Type 0} (tests_in_preset : CsafVersionTag → Text → Option ℕ)
    (save_document : DocumentValidation V → S → Result S) (increment_job_validated : S → S) where
  -- Storing one document and counting it for the job.
  abbrev pub store : DocumentResult V → S → Result S
  store doc s = save_document (build_document_validation tests_in_preset doc) s >>= λ saved.
      ok (increment_job_validated saved)

module _ {V S : Type 0} (tests_in_preset : CsafVersionTag → Text → Option ℕ)
    (original_url : Text → Text) (save_document : DocumentValidation V → S → Result S)
    (increment_job_validated : S → S) where
  -- A walk that ends went over all documents.
  record IsWalked (walk : List (Verification V)) (start : S) (count : ℕ) (end : S × ℕ)
      : Type 0 where
    docs : List (DocumentResult V)
    results : Results original_url walk docs
    stored :
        for_each (store tests_in_preset save_document increment_job_validated) docs start ≡ ok end.0
    counted : count + length walk < u64_mod → end.1 ≡ count + length walk

  walk-IsWalked :
      (walk : List (Verification V)) (s : S) (count : ℕ) (end : S × ℕ)
      → for_each
          (validate_document tests_in_preset original_url save_document increment_job_validated)
          walk
          (s, count)
        ≡ ok end
      → IsWalked walk s count end
  unfolding for_each validate_document
  walk-IsWalked [] s count end ran =
      let e : Path (S × ℕ) (s, count) end = ok-injective ran in
      record {
        docs = [];
        results = none_left;
        stored = ap (λ (r : S × ℕ). ok r.0) e;
        counted = λ lt. sym (ap (λ (r : S × ℕ). r.1) e) ∙ omega arith;
      }
  walk-IsWalked (v ∷ walk) s count end ran =
      let (t, one, rest) = >>=-eq-ok _ _ ran in
      let (doc, checked, put) = >>=-eq-ok (document_result original_url v) _ one in
      let (saved, kept, done) =
        >>=-eq-ok (save_document (build_document_validation tests_in_preset doc) s) _ put in
      let e : Path (S × ℕ) (increment_job_validated saved, add_u64 count 1) t = ok-injective done in
      let w = walk-IsWalked walk (increment_job_validated saved) (add_u64 count 1) end (
        subst
          (λ (u : S × ℕ).
            for_each
              (validate_document tests_in_preset original_url save_document increment_job_validated)
              walk u
            ≡ ok end)
          (sym e) rest) in
      record {
        docs = doc ∷ w.docs;
        results = next (document_result-could_run original_url v doc checked) checked w.results;
        stored = rw kept w.stored;
        counted = λ lt.
            let plain : add_u64 count 1 ≡ count + 1 = add_u64-eq_of_lt count 1 (omega arith) in
            w.counted (omega arith) ∙ omega arith;
      }

  ensure_count-ok :
      (expected : ℕ) (end : S × ℕ) (checked : S)
      → ensure_count tests_in_preset original_url save_document increment_job_validated expected end
        ≡ ok checked
      → (end.1 ≡ expected) × (end.0 ≡ checked)
  ensure_count-ok expected (s, count) checked ran =
      let chosen : Bool → Result S = λ b. if b then ok s else err (wrong_count count expected) in
      elim (Bool-cases (count == expected)) [
        | inl same ↦ ((==_iff count expected).0 same, ok-injective (sym (ap chosen same) ∙ ran))
        | inr other ↦
            let wrong : err (wrong_count count expected) ≡ ok checked =
              sym (ap chosen other) ∙ ran in
            cc
      ]

  -- Whatever storing and counting do: a validation of less than 2^64 documents that succeeds went
  -- over exactly the expected number, none of whose checks could not run, and has stored and counted
  -- each of them once, in order, with its profiles; its result is the number of stored documents.
  pub validate_provider-Walked :
      (domain : Text) (set_documents_total : ℕ → S → S) (document_count : S → Result ℕ)
      (walk : List (Verification V)) (expected : ℕ) (s s' : S) (total : ℕ)
      → length walk < u64_mod
      → validate_provider tests_in_preset original_url save_document increment_job_validated domain
          set_documents_total document_count walk expected s
        ≡ ok (s', total)
      → (docs : List (DocumentResult V)) × Results original_url walk docs
        × (length walk ≡ expected)
        × (for_each
              (store tests_in_preset save_document increment_job_validated)
              docs
              (set_documents_total expected s)
            ≡ ok s')
        × (document_count s' ≡ ok total)
  unfolding validate_provider
  validate_provider-Walked domain set_documents_total document_count walk expected s s' total lt
        ran =
      let (end, walked, rest) = >>=-eq-ok _ _ ran in
      let (checked, counted, more) =
        >>=-eq-ok
          (ensure_count tests_in_preset original_url save_document increment_job_validated expected
            end)
          _ rest in
      let (stored, read, done) = >>=-eq-ok (document_count checked) _ more in
      let w =
        walk-IsWalked walk (set_documents_total expected s) 0 end
          (map_error-eq-ok (walker_error domain) _ walked) in
      let (all, same) = ensure_count-ok expected end checked counted in
      let e : Path (S × ℕ) (checked, stored) (s', total) = ok-injective done in
      (
        w.docs,
        w.results,
        omega (arith, w.counted (omega arith), all),
        w.stored ∙ ap (λ (x : S). ok x) (same ∙ ap (λ (r : S × ℕ). r.0) e),
        ap document_count (sym (ap (λ (r : S × ℕ). r.0) e)) ∙ read ∙ ap (λ (r : S × ℕ). ok r.1) e,
      )
