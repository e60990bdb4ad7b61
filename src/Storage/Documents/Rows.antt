-- ===== src/Storage/Documents/Rows.antt =====
-- What inserting and deleting rows does to the entries and to the first match.
use mathlib.Core.Path.{subst}
use csaf_trove.Base.{
  ◌≡◌, refl, sym, ap, ◌∙◌, ℕ, ◌<◌, Bool, true, false, ◌&&◌, some, List, [], ◌∷◌, ◌++◌, any, ◌==◌,
  ==_iff, arith, Bool-cases, or-false, inl, inr, if◌then◌else◌, All,
}
use csaf_trove.Storage.Documents.{
  DocumentRow, Owned, owned, own, is_in, delete_owned, select_ids, delete_rows, find_row,
}

some-injective : {A : Type 0} {a b : A} → some a ≡ some b → a ≡ b
some-injective h = cc

pub ==-refl : (n : ℕ) → (n == n) ≡ true
==-refl n = (==_iff n n).1 refl

pub ==_comm : (m n : ℕ) → (m == n) ≡ (n == m)
==_comm m n = ground arith

pub ==-lt : (m n : ℕ) → m < n → (m == n) ≡ false
==-lt m n lt = ground arith

module _ {A : Type 0} where
  pub owned-append :
      (id : ℕ) (xs ys : List (Owned A)) → owned id (xs ++ ys) ≡ owned id xs ++ owned id ys
  unfolding owned
  owned-append id [] ys = refl
  owned-append id (c ∷ cs) ys = elim (Bool-cases (c.document_id == id)) [
    | inl mine ↦ rw (mine, owned-append id cs ys)
    | inr other ↦ rw (other, owned-append id cs ys)
  ]

  pub owned-own : (id : ℕ) (entries : List A) → owned id (own id entries) ≡ entries
  unfolding owned own
  owned-own id [] = refl
  owned-own id (a ∷ rest) = rw (==-refl id, owned-own id rest)

  pub owned-own_other :
      (id other : ℕ) (entries : List A) → (id == other) ≡ false → owned other (own id entries) ≡ []
  unfolding owned own
  owned-own_other id other [] h = refl
  owned-own_other id other (a ∷ rest) h = rw (h, owned-own_other id other rest h)

  -- What is deleted leaves the entries of the other documents alone.
  pub owned-delete_owned :
      (id : ℕ) (ids : List ℕ) (cs : List (Owned A))
      → is_in id ids ≡ false
      → owned id (delete_owned ids cs) ≡ owned id cs
  unfolding owned delete_owned
  owned-delete_owned id ids [] h = refl
  owned-delete_owned id ids (c ∷ cs) h = elim (Bool-cases (c.document_id == id)) [
    | inl mine ↦ rw (
      mine,
      ap (λ i. is_in i ids) ((==_iff c.document_id id).0 mine) ∙ h,
      owned-delete_owned id ids cs h,
      mine,
    )
    | inr other ↦ elim (Bool-cases (is_in c.document_id ids)) [
      | inl gone ↦ rw (other, gone, owned-delete_owned id ids cs h)
      | inr kept ↦ rw (other, kept, other, owned-delete_owned id ids cs h)
    ]
  ]

  pub owned-fresh :
      (n : ℕ) (cs : List (Owned A)) → All (λ c. c.document_id < n) cs → owned n cs ≡ []
  unfolding owned
  owned-fresh n [] below = refl
  owned-fresh n (c ∷ cs) below = rw (==-lt c.document_id n below.0, owned-fresh n cs below.1)

  pub delete_owned-All :
      (P : Owned A → Type 0) (ids : List ℕ) (cs : List (Owned A))
      → All P cs
      → All P (delete_owned ids cs)
  unfolding delete_owned
  delete_owned-All P ids [] h = tt
  delete_owned-All P ids (c ∷ cs) h = elim (Bool-cases (is_in c.document_id ids)) [
    | inl gone ↦ rw gone (delete_owned-All P ids cs h.1)
    | inr kept ↦ rw kept (h.0, delete_owned-All P ids cs h.1)
  ]

  pub own-All :
      (P : Owned A → Type 0) (id : ℕ) (entries : List A)
      → ((a : A) → P (record { document_id = id; entry = a }))
      → All P (own id entries)
  unfolding own
  own-All P id [] h = tt
  own-All P id (a ∷ rest) h = (h a, own-All P id rest h)

pub delete_rows-All :
    (P : DocumentRow → Type 0) (p : DocumentRow → Bool) (rows : List DocumentRow)
    → All P rows
    → All P (delete_rows p rows)
unfolding delete_rows
delete_rows-All P p [] h = tt
delete_rows-All P p (row ∷ rows) h = elim (Bool-cases (p row)) [
  | inl gone ↦ rw gone (delete_rows-All P p rows h.1)
  | inr kept ↦ rw kept (h.0, delete_rows-All P p rows h.1)
]

pub find_row-All :
    (P : DocumentRow → Type 0) (p : DocumentRow → Bool) (rows : List DocumentRow)
    {row : DocumentRow}
    → All P rows
    → find_row p rows ≡ some row
    → P row
unfolding find_row
find_row-All P p [] h found = cc
find_row-All P p (r ∷ rows) h found = elim (Bool-cases (p r)) [
  | inl here ↦
      let e : some r ≡ some _ =
        sym (ap (λ b. if b then some r else find_row p rows) here) ∙ found in
      subst P (some-injective e) h.0
  | inr later ↦
      find_row-All P p rows h.1
        (sym (ap (λ b. if b then some r else find_row p rows) later) ∙ found)
]

-- A row is found after the deletion of every row that matches its key.
pub find_row-inserted :
    (p gone : DocumentRow → Bool) (new : DocumentRow) (rows : List DocumentRow)
    → ((row : DocumentRow) → p row ≡ true → gone row ≡ true)
    → p new ≡ true
    → find_row p (delete_rows gone rows ++ (new ∷ [])) ≡ some new
unfolding find_row delete_rows
find_row-inserted p gone new [] all h = rw h
find_row-inserted p gone new (row ∷ rows) all h = elim (Bool-cases (gone row)) [
  | inl deleted ↦ rw deleted (find_row-inserted p gone new rows all h)
  | inr kept ↦ elim (Bool-cases (p row)) [
    | inl match ↦ let wrong : true ≡ false = sym (all row match) ∙ kept in cc
    | inr other ↦ rw (kept, other) (find_row-inserted p gone new rows all h)
  ]
]

-- Matches that are not deleted are found as before.
pub find_row-other :
    (p gone : DocumentRow → Bool) (new : DocumentRow) (rows : List DocumentRow)
    → any (λ row. p row && gone row) rows ≡ false
    → p new ≡ false
    → find_row p (delete_rows gone rows ++ (new ∷ [])) ≡ find_row p rows
unfolding find_row delete_rows
find_row-other p gone new [] kept h = rw h
find_row-other p gone new (row ∷ rows) kept h = elim (Bool-cases (p row)) [
  | inl match ↦ elim (Bool-cases (gone row)) [
    | inl deleted ↦ let wrong : true ≡ false = rw (match, deleted) at kept in cc
    | inr stays ↦ rw (match, stays, match) refl
  ]
  | inr other ↦ elim (Bool-cases (gone row)) [
    | inl deleted ↦
        rw (other, deleted)
          (find_row-other p gone new rows (or-false (p row && gone row) _ kept).1 h)
    | inr stays ↦
        rw (other, stays, other)
          (find_row-other p gone new rows (or-false (p row && gone row) _ kept).1 h)
  ]
]

-- Keys are distinct.
abbrev pub IsKeyed : List DocumentRow → Type 0
IsKeyed [] = Unit
IsKeyed (row ∷ rows) = All (λ other. (other.id == row.id) ≡ false) rows × IsKeyed rows

select_ids-fresh :
    (id : ℕ) (gone : DocumentRow → Bool) (rows : List DocumentRow)
    → All (λ other. (other.id == id) ≡ false) rows
    → is_in id (select_ids gone rows) ≡ false
unfolding select_ids
select_ids-fresh id gone [] fresh = refl
select_ids-fresh id gone (row ∷ rows) fresh = elim (Bool-cases (gone row)) [
  | inl deleted ↦ rw (deleted, fresh.0, select_ids-fresh id gone rows fresh.1)
  | inr kept ↦ rw kept (select_ids-fresh id gone rows fresh.1)
]

-- The key of a match that is not deleted is not among those of the deleted rows.
pub find_row-kept :
    (p gone : DocumentRow → Bool) (rows : List DocumentRow) {found : DocumentRow}
    → IsKeyed rows
    → any (λ row. p row && gone row) rows ≡ false
    → find_row p rows ≡ some found
    → is_in found.id (select_ids gone rows) ≡ false
unfolding find_row select_ids
find_row-kept p gone [] keyed kept h = cc
find_row-kept p gone (row ∷ rows) {found} keyed kept h =
    let (this, rest) = or-false (p row && gone row) (any (λ r. p r && gone r) rows) kept in
    elim (Bool-cases (p row)) [
      | inl match ↦ elim (Bool-cases (gone row)) [
        | inl deleted ↦ let wrong : true ≡ false = rw (match, deleted) at this in cc
        | inr stays ↦
            let e : some row ≡ some found =
              sym (ap (λ b. if b then some row else find_row p rows) match) ∙ h in
            rw stays (
              subst (λ (r : DocumentRow). is_in r.id (select_ids gone rows) ≡ false)
                (some-injective e) (select_ids-fresh row.id gone rows keyed.0))
      ]
      | inr other ↦
          let h' : find_row p rows ≡ some found =
            sym (ap (λ b. if b then some row else find_row p rows) other) ∙ h in
          let ne : (found.id == row.id) ≡ false =
            find_row-All (λ r. (r.id == row.id) ≡ false) p rows keyed.0 h' in
          elim (Bool-cases (gone row)) [
            | inl deleted ↦
                rw (deleted, ==_comm row.id found.id, ne, find_row-kept p gone rows keyed.1 rest h')
            | inr stays ↦ rw stays (find_row-kept p gone rows keyed.1 rest h')
          ]
    ]
