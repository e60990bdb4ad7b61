-- ===== src/Storage/Documents/Details.antt =====
-- The profiles of a document lead from its row and its failures back to themselves.
use mathlib.Core.List.{append-nil}
use csaf_trove.Base.{
  ◌≡◌, refl, ap, ◌∙◌, ℕ, Bool, true, false, not, Option, none, some, List, [], ◌∷◌, ◌++◌, map, ◌==◌,
  Bool-cases, inl, inr,
}
use csaf_trove.Base.Text.{Text, bytes, text_eq, text_eq_refl}
use csaf_trove.Validation.Profiles.{DocumentCheckFailure, DocumentProfileDetail, DocumentValidation}
use csaf_trove.Storage.Documents.{
  StoredFailure, bit, of_profile, profile_to_cols, cols_to_profile, detail_from,
}
use csaf_trove.Storage.Documents.Store.{new_row, failures_of, all_failures}

of_profile-append :
    (profile : Text) (xs ys : List StoredFailure)
    → of_profile profile (xs ++ ys) ≡ of_profile profile xs ++ of_profile profile ys
of_profile-append profile [] ys = refl
of_profile-append profile (x ∷ xs) ys = elim (Bool-cases (text_eq x.profile profile)) [
  | inl this ↦ rw this (ap (◌∷◌ x.failure) (of_profile-append profile xs ys))
  | inr other ↦ rw other (of_profile-append profile xs ys)
]

abbrev tests_of : Option DocumentProfileDetail → List DocumentCheckFailure
tests_of none = []
tests_of (some d) = d.failing_tests

of_profile-same :
    (profile : Text) (tests : List DocumentCheckFailure)
    → of_profile profile (map (λ f. record { profile = profile; failure = f }) tests) ≡ tests
of_profile-same profile [] = refl
of_profile-same profile (f ∷ tests) =
    rw (text_eq_refl profile) (ap (◌∷◌ f) (of_profile-same profile tests))

of_profile-different :
    (profile other : Text) (tests : List DocumentCheckFailure)
    → text_eq other profile ≡ false
    → of_profile profile (map (λ f. record { profile = other; failure = f }) tests) ≡ []
of_profile-different profile other [] h = refl
of_profile-different profile other (f ∷ tests) h = rw h (of_profile-different profile other tests h)

of_profile-failures_of :
    (profile : Text) (d : Option DocumentProfileDetail)
    → of_profile profile (failures_of profile d) ≡ tests_of d
of_profile-failures_of profile none = refl
of_profile-failures_of profile (some d) = of_profile-same profile d.failing_tests

of_profile-other :
    (profile other : Text) (d : Option DocumentProfileDetail)
    → text_eq other profile ≡ false
    → of_profile profile (failures_of other d) ≡ []
of_profile-other profile other none h = refl
of_profile-other profile other (some d) h = of_profile-different profile other d.failing_tests h

pub bit-not : (b : Bool) → not (bit b == 0) ≡ b
bit-not true = refl
bit-not false = refl

-- The columns of a profile and its failures.
detail_from-profile_to_cols :
    (d : Option DocumentProfileDetail) → detail_from (some (profile_to_cols d)) (tests_of d) ≡ d
unfolding profile_to_cols
detail_from-profile_to_cols none = refl
detail_from-profile_to_cols (some d) =
    ap (λ (b : Bool). some (record d { passed = b })) (bit-not d.passed)

module _ {V : Type 0} (doc : DocumentValidation V) where
  of_profile-parts :
      (profile : Text)
      → of_profile profile (all_failures doc)
        ≡ of_profile profile (failures_of (bytes "basic") doc.basic)
          ++ (of_profile profile (failures_of (bytes "extended") doc.extended)
              ++ of_profile profile (failures_of (bytes "full") doc.full))
  of_profile-parts profile =
      of_profile-append profile (failures_of (bytes "basic") doc.basic) _
      ∙ ap (λ tests. of_profile profile (failures_of (bytes "basic") doc.basic) ++ tests)
          (of_profile-append profile (failures_of (bytes "extended") doc.extended) _)

  of_profile-basic : of_profile (bytes "basic") (all_failures doc) ≡ tests_of doc.basic
  unfolding text_eq
  of_profile-basic =
      of_profile-parts (bytes "basic")
      ∙ rw
          (
            of_profile-failures_of (bytes "basic") doc.basic,
            of_profile-other (bytes "basic") (bytes "extended") doc.extended refl,
            of_profile-other (bytes "basic") (bytes "full") doc.full refl,
          )
          (append-nil (tests_of doc.basic))

  of_profile-extended : of_profile (bytes "extended") (all_failures doc) ≡ tests_of doc.extended
  unfolding text_eq
  of_profile-extended =
      of_profile-parts (bytes "extended")
      ∙ rw
          (
            of_profile-other (bytes "extended") (bytes "basic") doc.basic refl,
            of_profile-failures_of (bytes "extended") doc.extended,
            of_profile-other (bytes "extended") (bytes "full") doc.full refl,
          )
          (append-nil (tests_of doc.extended))

  of_profile-full : of_profile (bytes "full") (all_failures doc) ≡ tests_of doc.full
  unfolding text_eq
  of_profile-full =
      of_profile-parts (bytes "full")
      ∙ rw (
        of_profile-other (bytes "full") (bytes "basic") doc.basic refl,
        of_profile-other (bytes "full") (bytes "extended") doc.extended refl,
        of_profile-failures_of (bytes "full") doc.full,
      )

  -- The profiles of a new row and its failures are those of the document.
  module _ (id count : ℕ) (checks : Text) where
    pub cols_to_profile-basic :
        cols_to_profile (new_row id count checks doc) (all_failures doc) (bytes "basic") ≡ doc.basic
    unfolding cols_to_profile new_row
    cols_to_profile-basic =
        ap (detail_from (some (profile_to_cols doc.basic))) of_profile-basic
        ∙ detail_from-profile_to_cols doc.basic

    pub cols_to_profile-extended :
        cols_to_profile (new_row id count checks doc) (all_failures doc) (bytes "extended")
        ≡ doc.extended
    unfolding cols_to_profile new_row
    cols_to_profile-extended =
        ap (detail_from (some (profile_to_cols doc.extended))) of_profile-extended
        ∙ detail_from-profile_to_cols doc.extended

    pub cols_to_profile-full :
        cols_to_profile (new_row id count checks doc) (all_failures doc) (bytes "full") ≡ doc.full
    unfolding cols_to_profile new_row
    cols_to_profile-full =
        ap (detail_from (some (profile_to_cols doc.full))) of_profile-full
        ∙ detail_from-profile_to_cols doc.full
