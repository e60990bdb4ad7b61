-- ===== src/Storage/TreeDiff/Traces.antt =====
-- What the callback of a comparison is given: the deltas of one list, whatever the callback does.
use mathlib.Core.List.{append_assoc, append-nil}
use csaf_trove.Base.{
  ℕ, zero, suc, ◌≡◌, refl, ◌∙◌, Bool, true, false, Option, none, some, List, [], ◌∷◌, ◌++◌,
  if◌then◌else◌,
}
use csaf_trove.Base.Text.{Text}
use csaf_trove.Base.Effect.{Result, ok, err, >>=-eq-ok, for_each, for_each-append}
use csaf_trove.Storage.TreeDiff.Repository.{Tree, TreeDelta, Repository}
use csaf_trove.Storage.TreeDiff.Compare.{
  same_oid, tree_id, tree_entries, rooted, emit, native_diff, out_of_levels, descend, compare,
  changed_directories, subtree, get_name,
}

-- The callback that only collects.
abbrev pub collect : TreeDelta → List TreeDelta → Result (List TreeDelta)
collect d ds = ok (ds ++ (d ∷ []))

-- A run with a callback that succeeds is the iteration over a list of deltas, the same list that
-- a collecting run adds to its accumulator.
module _ {ℓ} {S : Type ℓ} (visitor : TreeDelta → S → Result S) where
  abbrev pub Traces :
      (S × ℕ → Result (S × ℕ)) → (List TreeDelta × ℕ → Result (List TreeDelta × ℕ)) → Type ℓ
  Traces run gather =
      (s s' : S) (n n' : ℕ)
      → run (s, n) ≡ ok (s', n')
      → (ds : List TreeDelta) × ((acc : List TreeDelta) (m : ℕ)
          → (m' : ℕ) × (gather (acc, m) ≡ ok (acc ++ ds, m')))
        × (for_each visitor ds s ≡ ok s')

  for_each-Traces {κ} :
      {A : Type κ} (run : A → S × ℕ → Result (S × ℕ))
      (gather : A → List TreeDelta × ℕ → Result (List TreeDelta × ℕ))
      → ((a : A) → Traces (run a) (gather a))
      → (xs : List A) → Traces (for_each run xs) (for_each gather xs)
  unfolding for_each
  for_each-Traces run gather h [] s s' n n' e = ([], (λ acc m. (m, rw append-nil)), cc)
  for_each-Traces run gather h (x ∷ xs) s s' n n' e =
      let (mid, first, second) = >>=-eq-ok (run x (s, n)) (for_each run xs) e in
      let (ds, gathers, visits) = h x s mid.0 n mid.1 first in
      let (es, gathers', visits') = for_each-Traces run gather h xs mid.0 s' mid.1 n' second in
      (
        ds ++ es,
        (λ acc m.
            let (mid', g) = gathers acc m in
            let (end, g') = gathers' (acc ++ ds) mid' in
            (end, rw (g, ← append_assoc acc ds es) g')),
        for_each-append visitor ds es s ∙ rw visits visits',
      )

  emit-Traces :
      (repo : Repository) (prefix : Text) (d : TreeDelta)
      → Traces (emit repo visitor prefix d) (emit repo collect prefix d)
  unfolding emit for_each
  emit-Traces repo prefix d s s' n n' e =
      let (mid, visits, rest) = >>=-eq-ok (visitor (rooted prefix d) s) (λ t. ok (t, n)) e in
      (rooted prefix d ∷ [], (λ acc m. (m, refl)), rw visits (cc))

  native_diff-Traces :
      (repo : Repository) (old new : Option Tree) (prefix : Text)
      → Traces (native_diff repo visitor old new prefix) (native_diff repo collect old new prefix)
  unfolding native_diff
  native_diff-Traces repo old new prefix s s' n n' e =
      let (ds, found, visits) =
        >>=-eq-ok (repo.diff_tree_to_tree old new)
          (λ ds. for_each (emit repo visitor prefix) ds (s, suc n)) e in
      let (all, gathers, visited) =
        for_each-Traces (emit repo visitor prefix) (emit repo collect prefix)
          (emit-Traces repo prefix) ds s s' (suc n) n' visits in
      (all, (λ acc m. let (m', g) = gathers acc (suc m) in (m', rw found g)), visited)

  descend-Traces :
      (repo : Repository) (run : Option Tree → Option Tree → Text → S × ℕ → Result (S × ℕ))
      (gather : Option Tree → Option Tree → Text → List TreeDelta × ℕ → Result (List TreeDelta × ℕ))
      → ((old new : Option Tree) (prefix : Text)
          → Traces (run old new prefix) (gather old new prefix))
      → (old new : Option Tree) (prefix name : Text)
      → Traces
          (descend repo visitor run old new prefix name)
          (descend repo collect gather old new prefix name)
  unfolding descend
  descend-Traces repo run gather h old new prefix name s s' n n' e =
      let deep = prefix ++ (name ++ (b'/' ∷ [])) in
      let (before, found, rest) = >>=-eq-ok (subtree repo (get_name old name)) _ e in
      let (after, found', rest') = >>=-eq-ok (subtree repo (get_name new name)) _ rest in
      let (ds, gathers, visits) = h before after deep s s' n n' rest' in
      (ds, (λ acc m. let (m', g) = gathers acc m in (m', rw (found, found') g)), visits)

  done-Traces : Traces (λ x. ok x) (λ x. ok x)
  unfolding for_each
  done-Traces s s' n n' e = ([], (λ acc m. (m, rw append-nil)), cc)

  failed-Traces : (m : Text) → Traces (λ x. err m) (λ x. err m)
  failed-Traces m s s' n n' e = cc

  if-Traces :
      (run run' : S × ℕ → Result (S × ℕ))
      (gather gather' : List TreeDelta × ℕ → Result (List TreeDelta × ℕ)) (b : Bool)
      → Traces run gather
      → Traces run' gather'
      → Traces (λ x. if b then run x else run' x) (λ x. if b then gather x else gather' x)
  if-Traces run run' gather gather' true h k = h
  if-Traces run run' gather gather' false h k = k

  option-Traces {κ} :
      {A : Type κ} (run : S × ℕ → Result (S × ℕ)) (run' : A → S × ℕ → Result (S × ℕ))
      (gather : List TreeDelta × ℕ → Result (List TreeDelta × ℕ))
      (gather' : A → List TreeDelta × ℕ → Result (List TreeDelta × ℕ)) (o : Option A)
      → Traces run gather
      → ((a : A) → Traces (run' a) (gather' a))
      → Traces
          (λ x. elim o [ none ↦ run x | some a ↦ run' a x ])
          (λ x. elim o [ none ↦ gather x | some a ↦ gather' a x ])
  option-Traces run run' gather gather' none h k = h
  option-Traces run run' gather gather' (some a) h k = k a

  pub compare-Traces :
      (repo : Repository) (fuel : ℕ) (old new : Option Tree) (prefix : Text)
      → Traces (compare repo visitor fuel old new prefix) (compare repo collect fuel old new prefix)
  unfolding compare
  compare-Traces repo zero old new prefix =
      if-Traces (λ x. ok x) (λ x. err out_of_levels) (λ x. ok x) (λ x. err out_of_levels)
        (same_oid (tree_id old) (tree_id new)) done-Traces (failed-Traces out_of_levels)
  compare-Traces repo (suc fuel) old new prefix =
      let changed = changed_directories old new (tree_entries old ++ tree_entries new) [] in
      let run = for_each (descend repo visitor (compare repo visitor fuel) old new prefix) in
      let gather = for_each (descend repo collect (compare repo collect fuel) old new prefix) in
      let native = native_diff repo visitor old new prefix in
      let native' = native_diff repo collect old new prefix in
      if-Traces (λ x. ok x) (λ x. elim changed [ none ↦ native x | some ds ↦ run ds x ]) (λ x. ok x)
        (λ x. elim changed [ none ↦ native' x | some ds ↦ gather ds x ])
        (same_oid (tree_id old) (tree_id new)) done-Traces
        (option-Traces native run native' gather changed (native_diff-Traces repo old new prefix) (
          for_each-Traces (descend repo visitor (compare repo visitor fuel) old new prefix)
            (descend repo collect (compare repo collect fuel) old new prefix)
            (descend-Traces repo (compare repo visitor fuel) (compare repo collect fuel)
              (compare-Traces repo fuel) old new prefix)))
