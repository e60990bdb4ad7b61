-- ===== src/Storage/Membership/Replaced.antt =====
-- Saving the membership of distributions replaces exactly theirs.
use csaf_trove.Base.{
  ◌≡◌, refl, sym, ap, ◌∙◌, Bool, true, false, ◌&&◌, ◌||◌, not, Option, none, some, List, [], ◌∷◌,
  arith, All, Bool-cases, Option-cases, inl, inr, if◌then◌else◌,
}
use csaf_trove.Base.Text.{Text, text_eq, text_eq_iff, text_eq_comm}
use csaf_trove.Base.Map
use csaf_trove.Base.Map.{Map}
use csaf_trove.Base.Effect.{ok, for_each}
use csaf_trove.Storage.PathSet.{chunks}
use csaf_trove.Storage.PathSet.Rows.{contains, IsSorted, flatten-chunks}
use csaf_trove.Storage.Membership.{
  MembershipRow, holds, previous_documents, difference, delete_chunks, insert_member,
  save_distribution, save_distribution_membership,
}
use csaf_trove.Storage.Membership.Queries.{
  contains-previous_documents, contains-difference, holds-delete_chunks, for_each-insert_members,
}
use csaf_trove.Storage.Membership.Inserts.{difference-IsSorted, insert_member-all}

-- The new documents are none of the old ones.
difference-All :
    (d : Text) (rows : List MembershipRow) (xs ys : List Text)
    → ((x : Text) → contains x ys ≡ false → holds d x rows ≡ false)
    → All (λ x. holds d x rows ≡ false) (difference xs ys)
unfolding difference
difference-All d rows [] ys new = tt
difference-All d rows (x ∷ xs) ys new = elim (Bool-cases (contains x ys)) [
  | inl old ↦ rw old (difference-All d rows xs ys new)
  | inr fresh ↦ rw fresh (new x fresh, difference-All d rows xs ys new)
]

abbrev after : (e h p c : Bool) → Bool
after e h p c = (h && not (e && (p && not c))) || (e && (c && not p))

after-same : (p c : Bool) → after true p p c ≡ c
after-same p c = ground arith

after-other : (h p c : Bool) → after false h p c ≡ h
after-other h p c = ground arith

-- The membership of one distribution is the new one, that of the others the old one.
after-listed :
    (d e u : Text) (documents : List Text) (rows : List MembershipRow)
    → after
        (text_eq e d)
        (holds e u rows)
        (contains u (previous_documents d rows))
        (contains u documents)
      ≡ (if text_eq d e then contains u documents else holds e u rows)
after-listed d e u documents rows = elim (Bool-cases (text_eq d e)) [
  | inl same ↦
      let path : d ≡ e = (text_eq_iff d e).0 same in
      let known : contains u (previous_documents d rows) ≡ holds e u rows =
        contains-previous_documents d u rows ∙ ap (λ (v : Text). holds v u rows) path in
      ap
        (λ b.
          after b (holds e u rows) (contains u (previous_documents d rows)) (contains u documents))
        (text_eq_comm e d ∙ same)
      ∙ ap (λ p. after true (holds e u rows) p (contains u documents)) known
      ∙ after-same (holds e u rows) (contains u documents)
      ∙ sym (ap (λ b. if b then contains u documents else holds e u rows) same)
  | inr other ↦
      ap
        (λ b.
          after b (holds e u rows) (contains u (previous_documents d rows)) (contains u documents))
        (text_eq_comm e d ∙ other)
      ∙ after-other (holds e u rows) (contains u (previous_documents d rows)) (contains u documents)
      ∙ sym (ap (λ b. if b then contains u documents else holds e u rows) other)
]

-- What a distribution lists after its documents were saved.
abbrev pub listed : Text → Text → Option (List Text) → List MembershipRow → Bool
listed distribution document none rows = holds distribution document rows
listed distribution document (some documents) rows = contains document documents

save_distribution-ok :
    (d : Text) (documents : List Text) (rows : List MembershipRow)
    → IsSorted documents
    → (rows' : List MembershipRow) × (save_distribution d documents rows ≡ ok rows')
      × ((e u : Text)
          → holds e u rows' ≡ (if text_eq d e then contains u documents else holds e u rows))
unfolding save_distribution
save_distribution-ok d documents rows sorted =
    let previous = previous_documents d rows in
    let removed = difference previous documents in
    let added = difference documents previous in
    let kept = delete_chunks d (chunks 400 removed) rows in
    let deleted : (e u : Text)
        → holds e u kept ≡ (holds e u rows && not (text_eq e d && contains u removed)) =
      λ e u.
        holds-delete_chunks d e u (chunks 400 removed) rows
        ∙ ap (λ (us : List Text). holds e u rows && not (text_eq e d && contains u us))
            (flatten-chunks 399 removed) in
    let new : (x : Text) → contains x previous ≡ false → holds d x kept ≡ false = λ x old.
      deleted d x
      ∙ ap (λ b. b && not (text_eq d d && contains x removed))
          (sym (contains-previous_documents d x rows) ∙ old) in
    let (rows', ran, same) =
      insert_member-all d added kept (difference-IsSorted documents previous sorted)
        (difference-All d kept documents previous new) in
    (
      rows',
      for_each-insert_members d (chunks 400 added) kept
          ∙ ap (λ (us : List Text). for_each (insert_member d) us kept) (flatten-chunks 399 added)
          ∙ ran,
      λ e u.
          same e u
          ∙ ap (λ b. b || (text_eq e d && contains u added)) (deleted e u)
          ∙ ap
              (λ b. (holds e u rows && not (text_eq e d && b)) || (text_eq e d && contains u added))
              (contains-difference u previous documents)
          ∙ ap
              (λ b.
                (holds e u rows
                  && not (text_eq e d && (contains u previous && not (contains u documents))))
                || (text_eq e d && b))
              (contains-difference u documents previous)
          ∙ after-listed d e u documents rows,
    )

-- The keys of a map are distinct.
abbrev pub HasKeys : Map (List Text) → Type 0
HasKeys [] = Unit
HasKeys ((d, documents) ∷ m) = All (λ entry. text_eq entry.0 d ≡ false) m × HasKeys m

get-none :
    (d : Text) (m : Map (List Text))
    → All (λ entry. text_eq entry.0 d ≡ false) m
    → Map.get d m ≡ none
unfolding Map.get
get-none d [] others = refl
get-none d ((e, documents) ∷ m) others = rw others.0 (get-none d m others.1)

-- A later distribution does not change what an earlier one lists.
listed-rest :
    (d e u : Text) (documents : List Text) (m : Map (List Text)) (rows rows' : List MembershipRow)
    → All (λ entry. text_eq entry.0 d ≡ false) m
    → (holds e u rows' ≡ (if text_eq d e then contains u documents else holds e u rows))
    → listed e u (Map.get e m) rows'
      ≡ listed e u (if text_eq d e then some documents else Map.get e m) rows
listed-rest d e u documents m rows rows' others one = elim (Bool-cases (text_eq d e)) [
  | inl same ↦
      let absent : Map.get e m ≡ none =
        ap (λ (v : Text). Map.get v m) (sym ((text_eq_iff d e).0 same)) ∙ get-none d m others in
      ap (λ (o : Option (List Text)). listed e u o rows') absent
      ∙ one
      ∙ ap (λ b. if b then contains u documents else holds e u rows) same
      ∙ sym (ap (λ b. listed e u (if b then some documents else Map.get e m) rows) same)
  | inr other ↦
      let old : holds e u rows' ≡ holds e u rows =
        one ∙ ap (λ b. if b then contains u documents else holds e u rows) other in
      elim (Option-cases (Map.get e m)) [
        | inl absent ↦ rw (other, absent) old
        | inr (found, present) ↦ rw (other, present) refl
      ]
]

-- Saving the membership of distributions with distinct URLs never conflicts with the primary key.
-- Each of them then lists exactly its documents, and every other distribution what it listed before.
pub save_distribution_membership-listed :
    (membership : Map (List Text)) (rows : List MembershipRow)
    → HasKeys membership
    → All (λ entry. IsSorted entry.1) membership
    → (rows' : List MembershipRow) × (save_distribution_membership membership rows ≡ ok rows')
      × ((distribution document : Text)
          → holds distribution document rows'
            ≡ listed distribution document (Map.get distribution membership) rows)
unfolding save_distribution_membership for_each Map.get
save_distribution_membership-listed [] rows keyed sorted = (rows, refl, λ e u. refl)
save_distribution_membership-listed ((d, documents) ∷ m) rows keyed sorted =
    let (next, one, saved) = save_distribution-ok d documents rows sorted.0 in
    let (rows', ran, same) = save_distribution_membership-listed m next keyed.1 sorted.1 in
    (
      rows',
      rw one ran,
      λ e u. same e u ∙ listed-rest d e u documents m rows next keyed.0 (saved e u),
    )
