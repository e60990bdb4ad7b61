-- ===== src/Storage/Membership/Inserts.antt =====
-- New members are inserted without a conflict.
use csaf_trove.Base.{
  ◌≡◌, refl, sym, ap, ◌∙◌, Bool, true, false, ◌&&◌, ◌||◌, not, List, [], ◌∷◌, ◌++◌, retain, arith,
  All, Bool-cases, inl, inr,
}
use csaf_trove.Base.Text.{
  Text, text_eq, text_eq_iff, text_eq_comm, text_eq_refl, text_lt, text_lt_irrefl, text_lt_trans,
}
use csaf_trove.Base.Effect.{ok, for_each}
use csaf_trove.Storage.PathSet.Rows.{contains, Above, Above-IsSorted, IsSorted}
use csaf_trove.Storage.Membership.{MembershipRow, lists, holds, difference, insert_member}
use csaf_trove.Storage.PathSet.Pages.{Above-weaken}
use csaf_trove.Storage.Membership.Queries.{any-append}

Above-retain :
    (p : Text → Bool) (low : Text) (xs : List Text) → Above low xs → Above low (retain p xs)
Above-retain p low [] above = tt
Above-retain p low (x ∷ xs) above = elim (Bool-cases (p x)) [
  | inl keep ↦ rw keep (above.0, Above-retain p x xs above.1)
  | inr drop ↦ rw drop (Above-retain p low xs (Above-weaken low x xs above.0 above.1))
]

pub difference-IsSorted : (xs ys : List Text) → IsSorted xs → IsSorted (difference xs ys)
unfolding difference
difference-IsSorted [] ys sorted = tt
difference-IsSorted (x ∷ xs) ys above = elim (Bool-cases (not (contains x ys))) [
  | inl keep ↦ rw keep (Above-retain (λ y. not (contains y ys)) x xs above)
  | inr drop ↦ rw drop (Above-IsSorted x _ (Above-retain (λ y. not (contains y ys)) x xs above))
]

-- The documents of the table that have the new row.
abbrev with_member : Text → Text → List MembershipRow → List MembershipRow
with_member d x rows = rows ++ (record { distribution_url = d; document_url = x } ∷ [])

or-assoc_false : (h a b c : Bool) → ((h || (a && b || false)) || (a && c)) ≡ (h || (a && (b || c)))
or-assoc_false h a b c = ground arith

text_lt-eq : (x y : Text) → text_lt x y ≡ true → text_eq x y ≡ false
text_lt-eq x y lt = elim (Bool-cases (text_eq x y)) [
  | inl same ↦
      let e : x ≡ y = (text_eq_iff x y).0 same in
      let wrong : true ≡ false = sym lt ∙ ap (λ (v : Text). text_lt v y) e ∙ text_lt_irrefl y in cc
  | inr different ↦ different
]

-- The documents after the inserted one are still new.
new-with_member :
    (d x low : Text) (xs : List Text) (rows : List MembershipRow)
    → text_lt x low ≡ true
    → Above low xs
    → All (λ y. holds d y rows ≡ false) xs
    → All (λ y. holds d y (with_member d x rows) ≡ false) xs
new-with_member d x low [] rows lt above new = tt
new-with_member d x low (y ∷ ys) rows lt above new =
    let far : text_lt x y ≡ true = text_lt_trans x low y lt above.0 in
    (
      any-append (lists d y) rows _ ∙ rw (new.0, text_lt-eq x y far, text_eq_refl d),
      new-with_member d x y ys rows far above.1 new.1,
    )

fresh-with_member :
    (d x : Text) (xs : List Text) (rows : List MembershipRow)
    → Above x xs
    → All (λ y. holds d y rows ≡ false) xs
    → All (λ y. holds d y (with_member d x rows) ≡ false) xs
fresh-with_member d x [] rows above new = tt
fresh-with_member d x (y ∷ ys) rows above new = (
  any-append (lists d y) rows _ ∙ rw (new.0, text_lt-eq x y above.0, text_eq_refl d),
  new-with_member d x y ys rows above.0 above.1 new.1,
)

-- New documents in ascending order are inserted without a conflict.
pub insert_member-all :
    (d : Text) (xs : List Text) (rows : List MembershipRow)
    → IsSorted xs
    → All (λ x. holds d x rows ≡ false) xs
    → (rows' : List MembershipRow) × (for_each (insert_member d) xs rows ≡ ok rows')
      × ((e u : Text) → holds e u rows' ≡ (holds e u rows || (text_eq e d && contains u xs)))
unfolding for_each insert_member contains
insert_member-all d [] rows sorted new = (rows, refl, λ e u. ground arith)
insert_member-all d (x ∷ xs) rows above new =
    let (rows', ran, same) =
      insert_member-all d xs (with_member d x rows) (Above-IsSorted x xs above)
        (fresh-with_member d x xs rows above new.1) in
    (
      rows',
      rw new.0 ran,
      λ e u.
          same e u
          ∙ ap (λ b. b || (text_eq e d && contains u xs)) (any-append (lists e u) rows _)
          ∙ ap
              (λ c.
                (holds e u rows || (c && text_eq x u || false)) || (text_eq e d && contains u xs))
              (text_eq_comm d e)
          ∙ or-assoc_false (holds e u rows) (text_eq e d) (text_eq x u) (contains u xs),
    )
