-- ===== src/Processing/History.antt =====
-- What `scan_changes` sends for a linear history: every path that a commit touched, reverted or
-- not, in order, however the paths are spread over messages and whatever the cache holds.
use mathlib.Core.List.{append_assoc, append-nil}
use csaf_trove.Base.{
  ℕ, zero, suc, ◌≤◌, ◌≡◌, refl, ◌∙◌, ap, false, ◌||◌, Option, none, some, List, [], ◌∷◌, ◌++◌,
  arith, length, ◌==◌, Bool-cases, inl, inr,
}
use csaf_trove.Base.Text.{Text, text_eq, text_eq_refl}
use csaf_trove.Base.Effect.{ok, for_each}
use csaf_trove.Storage.PathSet.{PathSet, path_batch, insert_batch}
use csaf_trove.Storage.PathSet.Rows.{
  contains, contains-insert_batch, contains-append, IsValid, insert_batch-IsValid,
}
use csaf_trove.Storage.TreeDiff.Repository.{Oid, TreeDelta, Commit, Repository}
use csaf_trove.Storage.TreeDiff.Cache.{TreeDiffCache, empty}
use csaf_trove.Storage.TreeDiff.Sound.{IsStored, IsSound, tree_deltas}
use csaf_trove.Storage.TreeDiff.Visits.{visit_lem}
use csaf_trove.Processing.Scan.{
  Batch, Outgoing, push_path, push_delta, flush, scan_from, scan_changes,
}
use csaf_trove.Processing.Select.{collect_changes}

abbrev pub option_list {ℓ} : {A : Type ℓ} → Option A → List A
option_list none = []
option_list (some a) = a ∷ []

-- The paths of the deltas, the old one before the new one.
abbrev pub delta_paths : List TreeDelta → List Text
delta_paths [] = []
delta_paths (d ∷ ds) = option_list d.old_path ++ (option_list d.new_path ++ delta_paths ds)

-- A commit's only parent, and the deltas from the parent's tree to the commit's.
abbrev pub Step : Type 0
Step = Commit × List TreeDelta

abbrev pub touched : List Step → List Text
touched [] = []
touched ((parent, ds) ∷ steps) = delta_paths ds ++ touched steps

-- The steps lead from the commit down to the processed one, each over an only parent whose trees
-- are stored and can be compared.
abbrev pub IsLinear : Repository → ℕ → Oid → Commit → List Step → Type 0
IsLinear repo levels previous c [] = c.id ≡ previous
IsLinear repo levels previous c ((parent, ds) ∷ steps) =
    (text_eq c.id previous ≡ false)
    × (c.parents ≡ parent.id ∷ [])
    × (repo.find_commit parent.id ≡ ok parent)
    × IsStored repo c.tree
    × IsStored repo parent.tree
    × (tree_deltas repo levels (some parent.tree) c.tree ≡ ok ds)
    × IsLinear repo levels previous parent steps

-- All paths of the messages.
abbrev pub sent_paths : List Batch → List Text
sent_paths [] = []
sent_paths ((paths, visited) ∷ sent) = paths ++ sent_paths sent

sent_paths-append : (xs ys : List Batch) → sent_paths (xs ++ ys) ≡ sent_paths xs ++ sent_paths ys
sent_paths-append [] ys = refl
sent_paths-append ((paths, visited) ∷ xs) ys = rw (sent_paths-append xs ys, append_assoc)

abbrev content : Outgoing → List Text
content out = sent_paths out.sent ++ out.paths

content-push_path :
    (visited : ℕ) (path : Option Text) (out : Outgoing)
    → content (push_path visited path out) ≡ content out ++ option_list path
unfolding push_path
content-push_path visited none out = rw append-nil
content-push_path visited (some path) out =
    elim (Bool-cases (length (out.paths ++ (path ∷ [])) == path_batch)) [
      | inl full ↦ rw full (simp (sent_paths-append, append-nil, append_assoc))
      | inr room ↦ rw room (simp append_assoc)
    ]

-- The callback never fails, and hands on every path.
for_each-push_delta :
    (visited : ℕ) (ds : List TreeDelta) (out : Outgoing)
    → (out' : Outgoing) × (for_each (push_delta visited) ds out ≡ ok out')
      × (content out' ≡ content out ++ delta_paths ds)
unfolding for_each push_delta
for_each-push_delta visited [] out = (out, refl, rw append-nil)
for_each-push_delta visited (d ∷ ds) out =
    let pushed = push_path visited d.new_path (push_path visited d.old_path out) in
    let (out', ran, all) = for_each-push_delta visited ds pushed in
    (
      out',
      ran,
      all
          ∙ rw
              (
                content-push_path visited d.new_path (push_path visited d.old_path out),
                content-push_path visited d.old_path out,
              )
              (simp append_assoc),
    )

sent_paths-flush : (visited : ℕ) (out : Outgoing) → sent_paths (flush visited out) ≡ content out
unfolding flush
sent_paths-flush visited out = simp (sent_paths-append, append-nil)

scan_from-Linear :
    (fuel levels : ℕ) (repo : Repository) (previous : Oid) (c : Commit) (steps : List Step)
    (cache : TreeDiffCache) (visited : ℕ) (sent : List Batch)
    → IsLinear repo levels previous c steps
    → length steps ≤ fuel
    → IsSound repo levels cache
    → (sent' : List Batch) × (scan_from fuel levels repo (some previous) c cache visited sent
        ≡ ok (false, sent'))
      × (sent_paths sent' ≡ sent_paths sent ++ touched steps)
unfolding scan_from
scan_from-Linear zero levels repo previous c [] cache visited sent linear le sound =
    (sent, rw (linear, text_eq_refl), rw append-nil)
scan_from-Linear (suc fuel) levels repo previous c [] cache visited sent linear le sound =
    (sent, rw (linear, text_eq_refl), rw append-nil)
scan_from-Linear zero levels repo previous c (x ∷ steps) cache visited sent linear le sound =
    absurd (omega arith)
scan_from-Linear (suc fuel) levels repo previous c ((parent, ds) ∷ steps) cache visited sent linear
      le sound =
    let (ne, only, found, sc, sp, deltas, rest) = linear in
    let start : Outgoing = record { paths = []; sent = sent } in
    let (out, pushed, all) = for_each-push_delta (suc visited) ds start in
    let (cache', ran, sound') =
      visit_lem repo levels (push_delta (suc visited)) (some parent.tree) c.tree cache start out ds
        sp sc sound deltas pushed in
    let (sent', scanned, sum) =
      scan_from-Linear fuel levels repo previous parent steps cache' (suc visited)
        (flush (suc visited) out) rest (omega arith) sound' in
    (
      sent',
      rw (ne, only, found, ran) scanned,
      sum
          ∙ ap (λ (ps : List Text). ps ++ touched steps)
              (sent_paths-flush (suc visited) out ∙ all ∙ rw append-nil)
          ∙ append_assoc (sent_paths sent) (delta_paths ds) (touched steps),
    )

pub empty-IsSound : (repo : Repository) (levels : ℕ) → IsSound repo levels empty
unfolding empty
empty-IsSound repo levels = record { faithful = tt; bounded = omega arith }

-- Over a linear history down to the processed commit, and with fuel for as many commits as it
-- has, the scan succeeds without asking for a baseline, and its messages hold exactly the paths
-- that the commits touched, each commit's behind those of its child, also paths whose change a
-- later commit reverted.
pub scan_changes-Linear :
    (fuel levels : ℕ) (repo : Repository) (previous : Oid) (head : Commit) (steps : List Step)
    → repo.find_commit head.id ≡ ok head
    → IsLinear repo levels previous head steps
    → length steps ≤ fuel
    → (sent : List Batch) × (scan_changes fuel levels repo head.id (some previous)
        ≡ ok (false, sent))
      × (sent_paths sent ≡ touched steps)
unfolding scan_changes empty
scan_changes-Linear fuel levels repo previous head steps found linear le =
    let (sent, ran, all) =
      scan_from-Linear fuel levels repo previous head steps empty 0 [] linear le
        (empty-IsSound repo levels) in
    (sent, rw found ran, all)

pub contains-collect_changes :
    (p : Text) (sent : List Batch) (changes : PathSet)
    → contains p (collect_changes sent changes).rows
      ≡ (contains p (sent_paths sent) || contains p changes.rows)
unfolding collect_changes contains
contains-collect_changes p [] changes = refl
contains-collect_changes p ((paths, visited) ∷ sent) changes = ground (
  arith,
  contains-collect_changes p sent (insert_batch paths changes),
  contains-insert_batch p paths changes,
  contains-append p paths (sent_paths sent),
)

pub collect_changes-IsValid :
    (sent : List Batch) (changes : PathSet)
    → IsValid changes
    → IsValid (collect_changes sent changes)
unfolding collect_changes
collect_changes-IsValid [] changes v = v
collect_changes-IsValid ((paths, visited) ∷ sent) changes v =
    collect_changes-IsValid sent (insert_batch paths changes) (insert_batch-IsValid paths changes v)
