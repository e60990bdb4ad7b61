-- ===== src/Storage/PathSet.antt =====
-- server/src/storage/path_set.rs: a sorted set of paths in a disposable table, read page by page.
pub mod Rows
pub mod Pages
use csaf_trove.Base.{
  ℕ, zero, suc, ◌+◌, Bool, Option, none, some, List, [], ◌∷◌, ◌++◌, length, take, drop, retain,
  last?, ◌==◌, if◌then◌else◌,
}
use csaf_trove.Base.Text.{Text, text_lt}
use csaf_trove.Base.Effect.{Result, ok, err, ◌>>=◌}

-- `PATH_BATCH`
abbrev pub path_batch : ℕ
path_batch = 256

-- The rows of the table in primary key order, and `len`.
pub record PathSet : Type 0 where
  pub rows : List Text
  pub len : ℕ

unfoldable pub new : PathSet
new = record { rows = []; len = 0 }

-- `INSERT OR IGNORE` of one row.
unfoldable pub insert_row : Text → List Text → List Text
insert_row path [] = path ∷ []
insert_row path (row ∷ rows) =
    if text_lt path row
    then path ∷ row ∷ rows
    else if text_lt row path
    then row ∷ insert_row path rows
    else row ∷ rows

-- The rows that a statement affects: 1 if the path was new.
unfoldable pub rows_affected : Text → List Text → ℕ
rows_affected path [] = 1
rows_affected path (row ∷ rows) =
    if text_lt path row then 1 else if text_lt row path then rows_affected path rows else 0

-- One statement with several rows.
unfoldable pub insert_rows : List Text → PathSet → PathSet
unfolding insert_row rows_affected
insert_rows [] set = set
insert_rows (path ∷ paths) set =
    insert_rows paths
      (record set { rows = insert_row path set.rows; len = set.len + rows_affected path set.rows })

-- `chunks`, by the rounds that are left.
unfoldable pub chunks_fuel : {A : Type 0} → ℕ → ℕ → List A → List (List A)
chunks_fuel zero size paths = []
chunks_fuel (suc fuel) size [] = []
chunks_fuel (suc fuel) size (p ∷ ps) =
    take size (p ∷ ps) ∷ chunks_fuel fuel size (drop size (p ∷ ps))

-- A list has no more chunks than entries, so its length is fuel enough.
unfoldable pub chunks : {A : Type 0} → ℕ → List A → List (List A)
unfolding chunks_fuel
chunks size paths = chunks_fuel (length paths) size paths

unfoldable pub insert_chunks : List (List Text) → PathSet → PathSet
unfolding insert_rows
insert_chunks [] set = set
insert_chunks (chunk ∷ rest) set = insert_chunks rest (insert_rows chunk set)

unfoldable pub insert_batch : List Text → PathSet → PathSet
unfolding insert_chunks chunks
insert_batch paths set = insert_chunks (chunks path_batch paths) set

-- `insert`
unfoldable pub insert_path : Text → PathSet → PathSet
unfolding insert_batch
insert_path path set = insert_batch (path ∷ []) set

unfoldable pub is_empty : PathSet → Bool
is_empty set = set.len == 0

-- `SELECT path FROM paths WHERE path > ? ORDER BY path LIMIT ?`
unfoldable pub batch : Text → PathSet → List Text
batch after set = take path_batch (retain (text_lt after) set.rows)

abbrev pub advance : Text → Option Text → Text
advance cursor none = cursor
advance cursor (some last) = last

-- The loop that every reader of a set writes: pages from the cursor on until one is empty.
-- `none` means that the fuel ran out.
module _ {ℓ} {S : Type ℓ} where
  unfoldable pub for_pages : ℕ → PathSet → (List Text → S → Result S) → Text → S → Option (Result S)
  unfolding batch
  for_pages zero set body cursor s = none
  for_pages (suc fuel) set body cursor s = elim (batch cursor set) [
    | [] ↦ some (ok s)
    | path ∷ paths ↦ elim (body (path ∷ paths) s) [
      | ok s' ↦ for_pages fuel set body (advance cursor (last? (path ∷ paths))) s'
      | err e ↦ some (err e)
    ]
  ]
