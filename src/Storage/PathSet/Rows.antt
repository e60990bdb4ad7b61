-- ===== src/Storage/PathSet/Rows.antt =====
-- The table stays a sorted set, and `len` its number of rows.
use mathlib.Core.Path.{ap₂}
use csaf_trove.Base.{
  ℕ, suc, ◌+◌, ◌≡◌, refl, ◌∙◌, ap, sym, inl, inr, Bool, true, false, List, [], ◌∷◌, ◌++◌, arith,
  length, Bool-cases, ◌||◌, zero, ◌≤◌, drop, length-drop, take-append-drop,
}
use csaf_trove.Base.Text.{
  Text, text_lt, text_lt_irrefl, text_lt_trans, text_lt_connex, text_eq, text_eq_iff, text_eq_refl,
}
use csaf_trove.Storage.PathSet.{
  PathSet, insert_row, rows_affected, insert_rows, insert_chunks, chunks_fuel, chunks, insert_batch,
  new, path_batch,
}

-- Every row is above `low`, and the rows ascend.
abbrev pub Above : Text → List Text → Type 0
Above low [] = Unit
Above low (row ∷ rows) = (text_lt low row ≡ true) × Above row rows

abbrev pub IsSorted : List Text → Type 0
IsSorted [] = Unit
IsSorted (row ∷ rows) = Above row rows

pub record IsValid (set : PathSet) : Type 0 where
  pub sorted : IsSorted set.rows
  pub counted : set.len ≡ length set.rows

-- Whether a path stands in the set.
unfoldable pub contains : Text → List Text → Bool
contains path [] = false
contains path (row ∷ rows) = text_eq row path || contains path rows

Above-insert_row :
    (low path : Text) (rows : List Text)
    → text_lt low path ≡ true
    → Above low rows
    → Above low (insert_row path rows)
unfolding insert_row
Above-insert_row low path [] lt above = (lt, tt)
Above-insert_row low path (row ∷ rows) lt above = elim (Bool-cases (text_lt path row)) [
  | inl below ↦ rw below (lt, (below, above.1))
  | inr not_below ↦ elim (Bool-cases (text_lt row path)) [
    | inl beyond ↦ rw (not_below, beyond) (above.0, Above-insert_row row path rows beyond above.1)
    | inr same ↦ rw (not_below, same) above
  ]
]

pub Above-IsSorted : (low : Text) (rows : List Text) → Above low rows → IsSorted rows
Above-IsSorted low [] above = tt
Above-IsSorted low (row ∷ rows) above = above.1

pub insert_row-IsSorted :
    (path : Text) (rows : List Text) → IsSorted rows → IsSorted (insert_row path rows)
unfolding insert_row
insert_row-IsSorted path [] sorted = tt
insert_row-IsSorted path (row ∷ rows) above = elim (Bool-cases (text_lt path row)) [
  | inl below ↦ rw below (below, above)
  | inr not_below ↦ elim (Bool-cases (text_lt row path)) [
    | inl beyond ↦ rw (not_below, beyond) (Above-insert_row row path rows beyond above)
    | inr same ↦ rw (not_below, same) above
  ]
]

length-insert_row :
    (path : Text) (rows : List Text)
    → length (insert_row path rows) ≡ rows_affected path rows + length rows
unfolding insert_row rows_affected
length-insert_row path [] = omega arith
length-insert_row path (row ∷ rows) = ground (arith, length-insert_row path rows)

pub contains-insert_row :
    (p path : Text) (rows : List Text)
    → contains p (insert_row path rows) ≡ (text_eq path p || contains p rows)
unfolding contains insert_row
contains-insert_row p path [] = refl
contains-insert_row p path (row ∷ rows) =
    ground (arith, contains-insert_row p path rows, text_lt_connex path row)

insert_rows-IsValid :
    (paths : List Text) (set : PathSet) → IsValid set → IsValid (insert_rows paths set)
unfolding insert_rows
insert_rows-IsValid [] set v = v
insert_rows-IsValid (path ∷ paths) set v = insert_rows-IsValid paths _ (record {
  sorted = insert_row-IsSorted path set.rows v.sorted;
  counted = omega (arith, length-insert_row path set.rows, v.counted);
})

insert_chunks-IsValid :
    (pages : List (List Text)) (set : PathSet) → IsValid set → IsValid (insert_chunks pages set)
unfolding insert_chunks
insert_chunks-IsValid [] set v = v
insert_chunks-IsValid (page ∷ pages) set v =
    insert_chunks-IsValid pages _ (insert_rows-IsValid page set v)

pub new-IsValid : IsValid new
unfolding new
new-IsValid = record { sorted = tt; counted = refl }

-- Inserting a batch keeps the rows in ascending order without duplicates, and `len` the number of
-- them: the affected rows that SQLite reports add up to it.
pub insert_batch-IsValid :
    (paths : List Text) (set : PathSet) → IsValid set → IsValid (insert_batch paths set)
unfolding insert_batch
insert_batch-IsValid paths set v = insert_chunks-IsValid (chunks path_batch paths) set v

abbrev pub flatten : {A : Type 0} → List (List A) → List A
flatten [] = []
flatten (page ∷ pages) = page ++ flatten pages

flatten-chunks_fuel :
    {A : Type 0} (fuel size : ℕ) (paths : List A)
    → length paths ≤ fuel
    → flatten (chunks_fuel fuel (suc size) paths) ≡ paths
unfolding chunks_fuel
flatten-chunks_fuel zero size [] h = refl
flatten-chunks_fuel zero size (p ∷ ps) h = absurd (omega arith)
flatten-chunks_fuel (suc fuel) size [] h = refl
flatten-chunks_fuel (suc fuel) size (p ∷ ps) h =
    rw (flatten-chunks_fuel fuel size (drop size ps) (omega (arith, length-drop size ps)))
      (take-append-drop (suc size) (p ∷ ps))

pub flatten-chunks :
    {A : Type 0} (size : ℕ) (paths : List A) → flatten (chunks (suc size) paths) ≡ paths
unfolding chunks
flatten-chunks size paths = flatten-chunks_fuel (length paths) size paths (omega arith)

contains-insert_rows :
    (p : Text) (paths : List Text) (set : PathSet)
    → contains p (insert_rows paths set).rows ≡ (contains p paths || contains p set.rows)
unfolding insert_rows contains
contains-insert_rows p [] set = refl
contains-insert_rows p (path ∷ paths) set = ground (
  arith,
  contains-insert_rows p paths
      (record set { rows = insert_row path set.rows; len = set.len + rows_affected path set.rows }),
  contains-insert_row p path set.rows,
)

pub contains-append :
    (p : Text) (xs ys : List Text) → contains p (xs ++ ys) ≡ (contains p xs || contains p ys)
unfolding contains
contains-append p [] ys = refl
contains-append p (x ∷ xs) ys = ground (arith, contains-append p xs ys)

contains-insert_chunks :
    (p : Text) (pages : List (List Text)) (set : PathSet)
    → contains p (insert_chunks pages set).rows
      ≡ (contains p (flatten pages) || contains p set.rows)
unfolding insert_chunks contains
contains-insert_chunks p [] set = refl
contains-insert_chunks p (page ∷ pages) set = ground (
  arith,
  contains-insert_chunks p pages (insert_rows page set),
  contains-insert_rows p page set,
  contains-append p page (flatten pages),
)

-- The set holds what it held and the paths of the batch, and nothing else.
pub contains-insert_batch :
    (p : Text) (paths : List Text) (set : PathSet)
    → contains p (insert_batch paths set).rows ≡ (contains p paths || contains p set.rows)
unfolding insert_batch
contains-insert_batch p paths set =
    contains-insert_chunks p (chunks path_batch paths) set
    ∙ ap (λ (ps : List Text). contains p ps || contains p set.rows) (flatten-chunks 255 paths)

pub Above-contains :
    (low p : Text) (rows : List Text)
    → Above low rows
    → contains p rows ≡ true
    → text_lt low p ≡ true
unfolding contains
Above-contains low p [] above h = cc
Above-contains low p (row ∷ rows) above h = elim (Bool-cases (text_eq row p)) [
  | inl same ↦ let e : row ≡ p = (text_eq_iff row p).0 same in rw (← e) above.0
  | inr other ↦ text_lt_trans low row p above.0 (Above-contains row p rows above.1 (rw other at h))
]

not-contains-Above : (p : Text) (rows : List Text) → Above p rows → contains p rows ≡ false
not-contains-Above p rows above = elim (Bool-cases (contains p rows)) [
  | inl found ↦ cc (Above-contains p p rows above found, text_lt_irrefl p)
  | inr missing ↦ missing
]

-- Sorted rows are determined by what they hold.
pub rows_unique :
    (xs ys : List Text)
    → IsSorted xs
    → IsSorted ys
    → ((p : Text) → contains p xs ≡ contains p ys)
    → xs ≡ ys
unfolding contains
rows_unique [] [] sx sy same = refl
rows_unique [] (y ∷ ys) sx sy same = ground (arith, same y, text_eq_refl y)
rows_unique (x ∷ xs) [] sx sy same = ground (arith, same x, text_eq_refl x)
rows_unique (x ∷ xs) (y ∷ ys) sx sy same = elim (Bool-cases (text_lt x y)) [
  | inl below ↦ cc (same x, text_eq_refl x, not-contains-Above x (y ∷ ys) (below, sy))
  | inr not_below ↦ elim (Bool-cases (text_lt y x)) [
    | inl beyond ↦ cc (same y, text_eq_refl y, not-contains-Above y (x ∷ xs) (beyond, sx))
    | inr not_beyond ↦
        let e : x ≡ y = text_lt_connex x y not_below not_beyond in
        ap₂ (λ (h : Text) (t : List Text). h ∷ t) e
          (rows_unique xs ys (Above-IsSorted x xs sx) (Above-IsSorted y ys sy) (tails e))
  ]
]
  where
    tails : x ≡ y → (p : Text) → contains p xs ≡ contains p ys
    tails e p = ground (
      arith,
      same p,
      not-contains-Above x xs sx,
      not-contains-Above y ys sy,
      text_eq_iff x p,
      text_eq_iff y p,
    )

-- Batches with the same paths leave the same set: order and repetitions, and how the paths are
-- spread over statements, do not matter.
pub insert_batch_canonical :
    (ps qs : List Text) (set : PathSet)
    → IsValid set
    → ((p : Text) → contains p ps ≡ contains p qs)
    → insert_batch ps set ≡ insert_batch qs set
insert_batch_canonical ps qs set v same =
    let a = insert_batch-IsValid ps set v in
    let b = insert_batch-IsValid qs set v in
    let e : (insert_batch ps set).rows ≡ (insert_batch qs set).rows =
      rows_unique _ _ a.sorted b.sorted (λ p.
        contains-insert_batch p ps set
        ∙ ap (λ (h : Bool). h || contains p set.rows) (same p)
        ∙ sym (contains-insert_batch p qs set)) in
    ground (arith, e, a.counted, b.counted)
