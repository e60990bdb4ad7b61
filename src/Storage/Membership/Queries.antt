-- ===== src/Storage/Membership/Queries.antt =====
-- What the statements of `save_distribution_membership` do to a membership.
use mathlib.Core.Path.{fun_ext}
use csaf_trove.Base.{
  ◌≡◌, refl, sym, ap, ◌∙◌, Bool, true, false, ◌&&◌, ◌||◌, not, List, [], ◌∷◌, ◌++◌, any, retain,
  arith, Bool-cases, inl, inr,
}
use csaf_trove.Base.Text.{Text, text_eq, text_eq_iff}
use csaf_trove.Base.Effect.{Result, ◌>>=◌, for_each, for_each-append}
use csaf_trove.Storage.PathSet.Rows.{contains, flatten, contains-append}
use csaf_trove.Retrieval.Index.{contains-collect_set}
use csaf_trove.Storage.Membership.{
  MembershipRow, lists, holds, select_documents, previous_documents, difference, delete_documents,
  delete_chunks, insert_member, insert_members,
}

and-false : (a : Bool) → (a && false) ≡ false
and-false true = refl
and-false false = refl

-- A predicate that is the same for all matches decides whether one is retained.
any-retain :
    {A : Type 0} (q p : A → Bool) (b : Bool)
    → ((x : A) → q x ≡ true → p x ≡ b)
    → (xs : List A) → any q (retain p xs) ≡ (any q xs && b)
any-retain q p b same [] = refl
any-retain q p b same (x ∷ xs) =
    let rest = any-retain q p b same xs in
    elim (Bool-cases (q x)) [
      | inl match ↦ elim (Bool-cases b) [
        | inl keep ↦ rw (same x match, keep, match) refl
        | inr drop ↦
            rw (same x match, drop, match)
              (rest ∙ ap (λ c. any q xs && c) drop ∙ and-false (any q xs))
      ]
      | inr other ↦ elim (Bool-cases (p x)) [
        | inl keep ↦ rw (keep, other) rest
        | inr drop ↦ rw (drop, other) rest
      ]
    ]

contains-any : (u : Text) (xs : List Text) → contains u xs ≡ any (λ x. text_eq x u) xs
unfolding contains
contains-any u [] = refl
contains-any u (x ∷ xs) = ap (λ b. text_eq x u || b) (contains-any u xs)

contains-select_documents :
    (d u : Text) (rows : List MembershipRow) → contains u (select_documents d rows) ≡ holds d u rows
unfolding contains
contains-select_documents d u [] = refl
contains-select_documents d u (row ∷ rows) = elim (Bool-cases (text_eq row.distribution_url d)) [
  | inl this ↦
      rw this (ap (λ b. text_eq row.document_url u || b) (contains-select_documents d u rows))
  | inr other ↦ rw other (contains-select_documents d u rows)
]

pub contains-previous_documents :
    (d u : Text) (rows : List MembershipRow)
    → contains u (previous_documents d rows) ≡ holds d u rows
unfolding previous_documents
contains-previous_documents d u rows =
    contains-collect_set u (select_documents d rows) ∙ contains-select_documents d u rows

pub contains-difference :
    (u : Text) (xs ys : List Text)
    → contains u (difference xs ys) ≡ (contains u xs && not (contains u ys))
unfolding difference
contains-difference u xs ys =
    contains-any u (retain (λ x. not (contains x ys)) xs)
    ∙ any-retain (λ x. text_eq x u) (λ x. not (contains x ys)) (not (contains u ys))
        (λ x same. ap (λ (v : Text). not (contains v ys)) ((text_eq_iff x u).0 same)) xs
    ∙ ap (λ b. b && not (contains u ys)) (sym (contains-any u xs))

and-true : (a b : Bool) → (a && b) ≡ true → (a ≡ true) × (b ≡ true)
and-true true b h = (refl, h)
and-true false b h = cc

holds-delete_documents :
    (d e u : Text) (chunk : List Text) (rows : List MembershipRow)
    → holds e u (delete_documents d chunk rows)
      ≡ (holds e u rows && not (text_eq e d && contains u chunk))
unfolding delete_documents
holds-delete_documents d e u chunk rows =
    any-retain (lists e u)
      (λ row. not (text_eq row.distribution_url d && contains row.document_url chunk))
      (not (text_eq e d && contains u chunk))
      (λ row same.
        let (here, this) =
          and-true (text_eq row.distribution_url e) (text_eq row.document_url u) same in
        ap (λ (f : Text). not (text_eq f d && contains row.document_url chunk))
          ((text_eq_iff row.distribution_url e).0 here)
        ∙ ap (λ (v : Text). not (text_eq e d && contains v chunk))
            ((text_eq_iff row.document_url u).0 this))
      rows

not-or : (h e a b : Bool) → ((h && not (e && a)) && not (e && b)) ≡ (h && not (e && (a || b)))
not-or h e a b = ground arith

pub holds-delete_chunks :
    (d e u : Text) (pages : List (List Text)) (rows : List MembershipRow)
    → holds e u (delete_chunks d pages rows)
      ≡ (holds e u rows && not (text_eq e d && contains u (flatten pages)))
unfolding delete_chunks contains
holds-delete_chunks d e u [] rows = ground arith
holds-delete_chunks d e u (page ∷ pages) rows =
    holds-delete_chunks d e u pages (delete_documents d page rows)
    ∙ ap (λ b. b && not (text_eq e d && contains u (flatten pages)))
        (holds-delete_documents d e u page rows)
    ∙ not-or (holds e u rows) (text_eq e d) (contains u page) (contains u (flatten pages))
    ∙ ap (λ b. holds e u rows && not (text_eq e d && b))
        (sym (contains-append u page (flatten pages)))

-- Statements with several rows insert one after the other.
pub for_each-insert_members :
    (d : Text) (pages : List (List Text)) (rows : List MembershipRow)
    → for_each (insert_members d) pages rows ≡ for_each (insert_member d) (flatten pages) rows
unfolding for_each insert_members
for_each-insert_members d [] rows = refl
for_each-insert_members d (page ∷ pages) rows =
    ap
      (λ (f : List MembershipRow → Result (List MembershipRow)).
        for_each (insert_member d) page rows >>= f)
      (fun_ext (for_each-insert_members d pages))
    ∙ sym (for_each-append (insert_member d) page (flatten pages) rows)

pub any-append :
    {A : Type 0} (p : A → Bool) (xs ys : List A) → any p (xs ++ ys) ≡ (any p xs || any p ys)
any-append p [] ys = refl
any-append p (x ∷ xs) ys = elim (Bool-cases (p x)) [
  | inl h ↦ rw h
  | inr h ↦ rw h (any-append p xs ys)
]
