-- ===== src/Storage/TreeDiff/Replays.antt =====
-- A comparison that can be collected can be streamed: it fails only where the callback fails.
use mathlib.Core.List.{append_assoc, append-nil}
use csaf_trove.Base.{
  ℕ, zero, suc, ◌≡◌, sym, ◌∙◌, Bool, true, false, Option, none, some, List, [], ◌∷◌, ◌++◌,
  if◌then◌else◌,
}
use csaf_trove.Base.Text.{Text}
use csaf_trove.Base.Effect.{Result, ok, err, >>=-eq-ok, for_each, for_each-append}
use csaf_trove.Storage.TreeDiff.Repository.{Tree, TreeDelta, Repository}
use csaf_trove.Storage.TreeDiff.Compare.{
  same_oid, tree_id, tree_entries, rooted, emit, native_diff, out_of_levels, descend, compare,
  changed_directories, subtree, get_name,
}
use csaf_trove.Storage.TreeDiff.Traces.{collect}

-- Where a collecting run succeeds with some deltas, so does a run whose callback accepts them.
module _ {ℓ} {S : Type ℓ} (visitor : TreeDelta → S → Result S) where
  abbrev pub Replays :
      (S × ℕ → Result (S × ℕ)) → (List TreeDelta × ℕ → Result (List TreeDelta × ℕ)) → Type ℓ
  Replays run gather =
      (acc out : List TreeDelta) (m m' : ℕ)
      → gather (acc, m) ≡ ok (out, m')
      → (ds : List TreeDelta) × (out ≡ acc ++ ds)
        × ((s s' : S) (n : ℕ)
            → for_each visitor ds s ≡ ok s'
            → (n' : ℕ) × (run (s, n) ≡ ok (s', n')))

  done-Replays : Replays (λ x. ok x) (λ x. ok x)
  unfolding for_each
  done-Replays acc out m m' e =
      let same : acc ≡ out = cc in
      ([], rw (append-nil, same), (λ s s' n h. let st : s ≡ s' = cc in (n, rw st)))

  failed-Replays : (m : Text) → Replays (λ x. err m) (λ x. err m)
  failed-Replays text acc out m m' e = cc

  for_each-Replays {κ} :
      {A : Type κ} (run : A → S × ℕ → Result (S × ℕ))
      (gather : A → List TreeDelta × ℕ → Result (List TreeDelta × ℕ))
      → ((a : A) → Replays (run a) (gather a))
      → (xs : List A) → Replays (for_each run xs) (for_each gather xs)
  unfolding for_each
  for_each-Replays run gather h [] acc out m m' e = done-Replays acc out m m' e
  for_each-Replays run gather h (x ∷ xs) acc out m m' e =
      let (mid, first, second) = >>=-eq-ok (gather x (acc, m)) (for_each gather xs) e in
      let (ds, split, replay) = h x acc mid.0 m mid.1 first in
      let (es, split', replay') = for_each-Replays run gather h xs mid.0 out mid.1 m' second in
      (
        ds ++ es,
        split' ∙ rw (split, append_assoc),
        (λ s s' n v.
            let (t, v1, v2) =
              >>=-eq-ok (for_each visitor ds s) (for_each visitor es)
                (sym (for_each-append visitor ds es s) ∙ v) in
            let (n', r) = replay s t n v1 in let (n'', r') = replay' t s' n' v2 in (n'', rw r r')),
      )

  emit-Replays :
      (repo : Repository) (prefix : Text) (d : TreeDelta)
      → Replays (emit repo visitor prefix d) (emit repo collect prefix d)
  unfolding emit for_each
  emit-Replays repo prefix d acc out m m' e = (
    rooted prefix d ∷ [],
    cc,
    (λ s s' n h.
        let (t, v, r) = >>=-eq-ok (visitor (rooted prefix d) s) (λ t. ok t) h in
        let st : t ≡ s' = cc in (n, rw (v, st))),
  )

  native_diff-Replays :
      (repo : Repository) (old new : Option Tree) (prefix : Text)
      → Replays (native_diff repo visitor old new prefix) (native_diff repo collect old new prefix)
  unfolding native_diff
  native_diff-Replays repo old new prefix acc out m m' e =
      let (ds, found, gathered) =
        >>=-eq-ok (repo.diff_tree_to_tree old new)
          (λ ds. for_each (emit repo collect prefix) ds (acc, suc m)) e in
      let (all, split, replay) =
        for_each-Replays (emit repo visitor prefix) (emit repo collect prefix)
          (emit-Replays repo prefix) ds acc out (suc m) m' gathered in
      (all, split, (λ s s' n v. let (n', r) = replay s s' (suc n) v in (n', rw found r)))

  descend-Replays :
      (repo : Repository) (run : Option Tree → Option Tree → Text → S × ℕ → Result (S × ℕ))
      (gather : Option Tree → Option Tree → Text → List TreeDelta × ℕ → Result (List TreeDelta × ℕ))
      → ((old new : Option Tree) (prefix : Text)
          → Replays (run old new prefix) (gather old new prefix))
      → (old new : Option Tree) (prefix name : Text)
      → Replays
          (descend repo visitor run old new prefix name)
          (descend repo collect gather old new prefix name)
  unfolding descend
  descend-Replays repo run gather h old new prefix name acc out m m' e =
      let deep = prefix ++ (name ++ (b'/' ∷ [])) in
      let (before, found, rest) = >>=-eq-ok (subtree repo (get_name old name)) _ e in
      let (after, found', rest') = >>=-eq-ok (subtree repo (get_name new name)) _ rest in
      let (ds, split, replay) = h before after deep acc out m m' rest' in
      (ds, split, (λ s s' n v. let (n', r) = replay s s' n v in (n', rw (found, found') r)))

  if-Replays :
      (run run' : S × ℕ → Result (S × ℕ))
      (gather gather' : List TreeDelta × ℕ → Result (List TreeDelta × ℕ)) (b : Bool)
      → Replays run gather
      → Replays run' gather'
      → Replays (λ x. if b then run x else run' x) (λ x. if b then gather x else gather' x)
  if-Replays run run' gather gather' true h k = h
  if-Replays run run' gather gather' false h k = k

  option-Replays {κ} :
      {A : Type κ} (run : S × ℕ → Result (S × ℕ)) (run' : A → S × ℕ → Result (S × ℕ))
      (gather : List TreeDelta × ℕ → Result (List TreeDelta × ℕ))
      (gather' : A → List TreeDelta × ℕ → Result (List TreeDelta × ℕ)) (o : Option A)
      → Replays run gather
      → ((a : A) → Replays (run' a) (gather' a))
      → Replays
          (λ x. elim o [ none ↦ run x | some a ↦ run' a x ])
          (λ x. elim o [ none ↦ gather x | some a ↦ gather' a x ])
  option-Replays run run' gather gather' none h k = h
  option-Replays run run' gather gather' (some a) h k = k a

  pub compare-Replays :
      (repo : Repository) (fuel : ℕ) (old new : Option Tree) (prefix : Text)
      → Replays
          (compare repo visitor fuel old new prefix)
          (compare repo collect fuel old new prefix)
  unfolding compare
  compare-Replays repo zero old new prefix =
      if-Replays (λ x. ok x) (λ x. err out_of_levels) (λ x. ok x) (λ x. err out_of_levels)
        (same_oid (tree_id old) (tree_id new)) done-Replays (failed-Replays out_of_levels)
  compare-Replays repo (suc fuel) old new prefix =
      let changed = changed_directories old new (tree_entries old ++ tree_entries new) [] in
      let run = for_each (descend repo visitor (compare repo visitor fuel) old new prefix) in
      let gather = for_each (descend repo collect (compare repo collect fuel) old new prefix) in
      let native = native_diff repo visitor old new prefix in
      let native' = native_diff repo collect old new prefix in
      if-Replays (λ x. ok x) (λ x. elim changed [ none ↦ native x | some ds ↦ run ds x ])
        (λ x. ok x) (λ x. elim changed [ none ↦ native' x | some ds ↦ gather ds x ])
        (same_oid (tree_id old) (tree_id new)) done-Replays
        (option-Replays native run native' gather changed (native_diff-Replays repo old new prefix)
          (for_each-Replays (descend repo visitor (compare repo visitor fuel) old new prefix)
            (descend repo collect (compare repo collect fuel) old new prefix)
            (descend-Replays repo (compare repo visitor fuel) (compare repo collect fuel)
              (compare-Replays repo fuel) old new prefix)))
