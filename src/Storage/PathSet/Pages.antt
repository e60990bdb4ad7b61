-- ===== src/Storage/PathSet/Pages.antt =====
-- The reading loop: every path once, in order, in pages of at most `PATH_BATCH` paths.
use csaf_trove.Base.{
  ℕ, zero, suc, ◌≤◌, ◌<◌, ◌≡◌, refl, ◌∙◌, ap, sym, true, false, some, List, [], ◌∷◌, arith, length,
  take, drop, retain, last?, Bool-cases, length-drop, inl, inr,
}
use csaf_trove.Base.Text.{Text, text_lt, text_lt_irrefl, text_lt_trans}
use csaf_trove.Base.Effect.{Result, for_each, Result-cases}
use csaf_trove.Storage.PathSet.{PathSet, advance, for_pages, chunks, chunks_fuel, path_batch}
use csaf_trove.Storage.PathSet.Rows.{Above, IsSorted, Above-IsSorted, flatten, flatten-chunks}

-- The rows above a cursor.
abbrev pub beyond : Text → List Text → List Text
beyond cursor rows = retain (text_lt cursor) rows

pub Above-weaken :
    (low row : Text) (rows : List Text) → text_lt low row ≡ true → Above row rows → Above low rows
Above-weaken low row [] lt above = tt
Above-weaken low row (r ∷ rows) lt above = (text_lt_trans low row r lt above.0, above.1)

beyond-Above : (low : Text) (rows : List Text) → Above low rows → beyond low rows ≡ rows
beyond-Above low [] above = refl
beyond-Above low (row ∷ rows) above =
    rw above.0 (ap (◌∷◌ row) (beyond-Above low rows (Above-weaken low row rows above.0 above.1)))

Above-beyond :
    (low cursor : Text) (rows : List Text) → Above low rows → Above low (beyond cursor rows)
Above-beyond low cursor [] above = tt
Above-beyond low cursor (row ∷ rows) above = elim (Bool-cases (text_lt cursor row)) [
  | inl kept ↦ rw kept (above.0, Above-beyond row cursor rows above.1)
  | inr passed ↦
      rw passed (Above-beyond low cursor rows (Above-weaken low row rows above.0 above.1))
]

cursor-Above-beyond :
    (cursor : Text) (rows : List Text) → IsSorted rows → Above cursor (beyond cursor rows)
cursor-Above-beyond cursor [] sorted = tt
cursor-Above-beyond cursor (row ∷ rows) sorted = elim (Bool-cases (text_lt cursor row)) [
  | inl kept ↦ rw kept (kept, Above-beyond row cursor rows sorted)
  | inr passed ↦ rw passed (cursor-Above-beyond cursor rows (Above-IsSorted row rows sorted))
]

beyond-beyond :
    (cursor next : Text) (rows : List Text)
    → text_lt cursor next ≡ true
    → beyond next (beyond cursor rows) ≡ beyond next rows
beyond-beyond cursor next [] lt = refl
beyond-beyond cursor next (row ∷ rows) lt =
    ground (arith, beyond-beyond cursor next rows lt, text_lt_trans cursor next row lt)

-- The last path of a page that begins with `row`.
abbrev last_of : Text → List Text → Text
last_of row [] = row
last_of row (r ∷ rows) = last_of r rows

last?-cons : (row : Text) (rows : List Text) → last? (row ∷ rows) ≡ some (last_of row rows)
last?-cons row [] = refl
last?-cons row (r ∷ rows) = last?-cons r rows

Above-take : (n : ℕ) (low : Text) (rows : List Text) → Above low rows → Above low (take n rows)
Above-take zero low rows above = tt
Above-take (suc n) low [] above = tt
Above-take (suc n) low (row ∷ rows) above = (above.0, Above-take n row rows above.1)

lt-last_of :
    (low row : Text) (rows : List Text)
    → text_lt low row ≡ true
    → Above row rows
    → text_lt low (last_of row rows) ≡ true
lt-last_of low row [] lt above = lt
lt-last_of low row (r ∷ rows) lt above =
    lt-last_of low r rows (text_lt_trans low row r lt above.0) above.1

not-lt_of_lt : (s t : Text) → text_lt s t ≡ true → text_lt t s ≡ false
not-lt_of_lt s t lt = elim (Bool-cases (text_lt t s)) [
  | inl back ↦ cc (text_lt_trans s t s lt back, text_lt_irrefl s)
  | inr no_back ↦ no_back
]

-- Behind the last path of a page the rest of the rows comes.
beyond-last_of :
    (n : ℕ) (row : Text) (rows : List Text)
    → Above row rows
    → beyond (last_of row (take n rows)) (row ∷ rows) ≡ drop n rows
beyond-last_of zero row rows above = rw text_lt_irrefl (beyond-Above row rows above)
beyond-last_of (suc n) row [] above = rw text_lt_irrefl
beyond-last_of (suc n) row (r ∷ rows) above =
    rw
      (not-lt_of_lt row (last_of r (take n rows))
        (lt-last_of row r (take n rows) above.0 (Above-take n r rows above.1)))
      (beyond-last_of n r rows above.1)

-- The cursor behind a page is beyond the old one, and what is left is the rest of the rows.
beyond-advance :
    (cursor row : Text) (more rows : List Text)
    → IsSorted rows
    → beyond cursor rows ≡ row ∷ more
    → beyond (advance cursor (last? (row ∷ take 255 more))) rows ≡ drop 255 more
beyond-advance cursor row more rows sorted e =
    let above : Above cursor (row ∷ more) = rw e at (cursor-Above-beyond cursor rows sorted) in
    let page : Above row (take 255 more) = Above-take 255 row more above.1 in
    let last = last_of row (take 255 more) in
    rw (last?-cons row (take 255 more)) (
      sym (beyond-beyond cursor last rows (lt-last_of cursor row (take 255 more) above.0 page))
      ∙ ap (beyond last) e
      ∙ beyond-last_of 255 row more above.1)

-- The loop from any cursor: it reads the rows beyond it.
for_pages-beyond {ℓ} :
    {S : Type ℓ} (fuel k : ℕ) (set : PathSet) (body : List Text → S → Result S) (cursor : Text)
    (s : S) (rest : List Text)
    → IsSorted set.rows
    → beyond cursor set.rows ≡ rest
    → length rest < fuel
    → length rest ≤ k
    → for_pages fuel set body cursor s ≡ some (for_each body (chunks_fuel k path_batch rest) s)
unfolding for_pages for_each chunks_fuel
for_pages-beyond zero k set body cursor s rest sorted e lt le = absurd (omega arith)
for_pages-beyond (suc fuel) zero set body cursor s [] sorted e lt le = rw (e, for_pages)
for_pages-beyond (suc fuel) (suc k) set body cursor s [] sorted e lt le = rw (e, for_pages)
for_pages-beyond (suc fuel) zero set body cursor s (row ∷ more) sorted e lt le =
    absurd (omega arith)
for_pages-beyond (suc fuel) (suc k) set body cursor s (row ∷ more) sorted e lt le =
    let next = advance cursor (last? (row ∷ take 255 more)) in
    let left = beyond-advance cursor row more set.rows sorted e in
    rw (e, for_pages)
      (elim (Result-cases (body (row ∷ take 255 more) s)) [
        | inl (s', h) ↦ rw h (
            for_pages-beyond fuel k set body next s' (drop 255 more) sorted left
              (omega (arith, length-drop 255 more)) (omega (arith, length-drop 255 more)))
        | inr (m, h) ↦ rw h
      ])

-- What the loop reads from the first cursor, the empty text: all rows but an empty path.
abbrev pub read_rows : PathSet → List Text
read_rows set = beyond [] set.rows

-- With more fuel than rows the loop over a sorted set ends, and is the plain iteration over its
-- rows in chunks of `PATH_BATCH`, each row in exactly one chunk, in order. It stops at the first
-- page whose body fails.
pub for_pages-chunks {ℓ} :
    {S : Type ℓ} (fuel : ℕ) (set : PathSet) (body : List Text → S → Result S) (s : S)
    → IsSorted set.rows
    → length (read_rows set) < fuel
    → (for_pages fuel set body [] s ≡ some (for_each body (chunks path_batch (read_rows set)) s))
      × (flatten (chunks path_batch (read_rows set)) ≡ read_rows set)
unfolding chunks
for_pages-chunks fuel set body s sorted lt = (
  for_pages-beyond fuel (length (read_rows set)) set body [] s (read_rows set) sorted refl lt
      (omega arith),
  flatten-chunks 255 (read_rows set),
)
