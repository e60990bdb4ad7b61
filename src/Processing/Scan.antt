-- ===== src/Processing/Scan.antt =====
-- `scan_changes`: the changed paths of every commit from the head down to the last processed one.
use csaf_trove.Base.{
  ℕ, zero, suc, Bool, true, false, Option, none, some, List, [], ◌∷◌, ◌++◌, length, ◌==◌,
  if◌then◌else◌,
}
use csaf_trove.Base.Text.{Text}
use csaf_trove.Base.Effect.{Result, ok, err, ◌>>=◌}
use csaf_trove.Storage.PathSet.{path_batch}
use csaf_trove.Storage.TreeDiff.Repository.{Oid, TreeDelta, Commit, Repository}
use csaf_trove.Storage.TreeDiff.Compare.{same_oid, out_of_levels}
use csaf_trove.Storage.TreeDiff.Cache.{TreeDiffCache, visit}

-- A message of the bounded channel: paths, and the commits visited so far.
abbrev pub Batch : Type 0
Batch = List Text × ℕ

-- The paths that wait for a batch, and the batches sent.
pub record Outgoing : Type 0 where
  pub paths : List Text
  pub sent : List Batch

unfoldable pub push_path : ℕ → Option Text → Outgoing → Outgoing
push_path visited none out = out
push_path visited (some path) out =
    let paths = out.paths ++ (path ∷ []) in
    if length paths == path_batch
    then record out { paths = []; sent = out.sent ++ ((paths, visited) ∷ []) }
    else record out { paths = paths }

-- The callback of the comparison. The receiver is dropped only by a failing insertion, so a send
-- does not fail here.
unfoldable pub push_delta : ℕ → TreeDelta → Outgoing → Result Outgoing
unfolding push_path
push_delta visited d out = ok (push_path visited d.new_path (push_path visited d.old_path out))

-- The remaining paths of a commit are sent, also if there are none.
unfoldable pub flush : ℕ → Outgoing → List Batch
flush visited out = out.sent ++ ((out.paths, visited) ∷ [])

abbrev only_parent : List Oid → Option Oid
only_parent (p ∷ []) = some p
only_parent _ = none

-- The loop, by the commits that may still be visited; `levels` is the fuel of a comparison. The
-- result says whether the history is unusable, and what was sent.
unfoldable pub scan_from :
    ℕ
    → ℕ
    → Repository
    → Option Oid
    → Commit
    → TreeDiffCache
    → ℕ
    → List Batch
    → Result (Bool × List Batch)
unfolding same_oid push_delta flush
scan_from zero levels repo previous current cache visited sent =
    if same_oid (some current.id) previous then ok (false, sent) else err out_of_levels
scan_from (suc fuel) levels repo previous current cache visited sent =
    if same_oid (some current.id) previous
    then ok (false, sent)
    else elim (only_parent current.parents) [
      | none ↦ ok (true, sent)
      | some id ↦ do
        parent ← repo.find_commit id
        (out, cache') ←
            visit repo levels (push_delta (suc visited)) (some parent.tree) current.tree cache
              (record { paths = []; sent = sent })
        scan_from fuel levels repo previous parent cache' (suc visited) (flush (suc visited) out)
    ]

unfoldable pub scan_changes : ℕ → ℕ → Repository → Oid → Option Oid → Result (Bool × List Batch)
unfolding scan_from
scan_changes fuel levels repo head previous = do
  current ← repo.find_commit head
  scan_from fuel levels repo previous current
      (record { entries = []; diffs_attempted = 0; cache_hits = 0 }) 0 []
