-- ===== src/Examples/Storage.antt =====
-- The theorems on path sets and tree comparisons at concrete paths and trees.
use csaf_trove.Base.{◌≡◌, refl, ◌||◌, some, List, [], ◌∷◌, ◌++◌, arith}
use csaf_trove.Base.Text.{Text, text_eq, text_lt}
use csaf_trove.Base.Effect.{Result, ok, for_each}
use csaf_trove.Storage.PathSet.{PathSet, insert_batch, for_pages, chunks, path_batch}
use csaf_trove.Storage.PathSet.Rows.{
  IsValid, contains, insert_batch-IsValid, contains-insert_batch, insert_batch_canonical, flatten,
}
use csaf_trove.Storage.PathSet.Pages.{read_rows, for_pages-chunks}
use csaf_trove.Storage.TreeDiff.Repository.{TreeDelta}
use csaf_trove.Storage.TreeDiff.Compare.{same_oid, changed_directories, native_diff, compare, emit}
use csaf_trove.Storage.TreeDiff.Cache.{TreeDiffCache, visit, empty}
use csaf_trove.Storage.TreeDiff.Sound.{IsSound}
use csaf_trove.Storage.TreeDiff.Visits.{visit_lem}
use csaf_trove.Examples.Data.{advisory, sidecar, gone, repository, old_tree, new_tree, deltas}

abbrev two_rows : PathSet
two_rows = record { rows = advisory ∷ gone ∷ []; len = 2 }

two_rows-IsValid : IsValid two_rows
unfolding text_lt
two_rows-IsValid = record { sorted = (refl, tt); counted = refl }

insert_batch-IsValid_example : IsValid (insert_batch (sidecar ∷ advisory ∷ []) two_rows)
insert_batch-IsValid_example =
    insert_batch-IsValid (sidecar ∷ advisory ∷ []) two_rows two_rows-IsValid

contains-insert_batch_example :
    contains sidecar (insert_batch (sidecar ∷ advisory ∷ []) two_rows).rows
    ≡ (contains sidecar (sidecar ∷ advisory ∷ []) || contains sidecar two_rows.rows)
contains-insert_batch_example = contains-insert_batch sidecar (sidecar ∷ advisory ∷ []) two_rows

same_paths :
    (p : Text)
    → contains p (sidecar ∷ advisory ∷ []) ≡ contains p (advisory ∷ sidecar ∷ sidecar ∷ [])
unfolding contains
same_paths p = ground arith

insert_batch_canonical_example :
    insert_batch (sidecar ∷ advisory ∷ []) two_rows
    ≡ insert_batch (advisory ∷ sidecar ∷ sidecar ∷ []) two_rows
insert_batch_canonical_example =
    insert_batch_canonical (sidecar ∷ advisory ∷ []) (advisory ∷ sidecar ∷ sidecar ∷ []) two_rows
      two_rows-IsValid same_paths

abbrev collect_page : List Text → List Text → Result (List Text)
collect_page page seen = ok (seen ++ page)

for_pages-chunks_example :
    (for_pages 3 two_rows collect_page [] []
      ≡ some (for_each collect_page (chunks path_batch (read_rows two_rows)) []))
    × (flatten (chunks path_batch (read_rows two_rows)) ≡ read_rows two_rows)
unfolding text_lt
for_pages-chunks_example =
    for_pages-chunks 3 two_rows collect_page [] two_rows-IsValid.sorted (omega arith)

abbrev keep : TreeDelta → List TreeDelta → Result (List TreeDelta)
keep d ds = ok (ds ++ (d ∷ []))

empty-IsSound : IsSound repository 2 empty
unfolding empty
empty-IsSound = record { faithful = tt; bounded = omega arith }

visit_lem_example :
    (cache : TreeDiffCache) × (visit repository 2 keep (some old_tree) new_tree empty []
      ≡ ok (deltas, cache))
    × IsSound repository 2 cache
unfolding text_eq compare native_diff emit changed_directories same_oid for_each
visit_lem_example =
    visit_lem repository 2 keep (some old_tree) new_tree empty [] deltas deltas refl refl
      empty-IsSound refl refl
