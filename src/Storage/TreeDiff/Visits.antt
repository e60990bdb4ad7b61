-- ===== src/Storage/TreeDiff/Visits.antt =====
-- The cache returns what a comparison without it gives, and stays within its bound.
use mathlib.Core.Path.{subst}
use mathlib.Core.List.{append_assoc, append-nil}
use csaf_trove.Base.{ℕ, ◌≡◌, refl, ◌∙◌, Option, none, some, List, [], ◌∷◌, ◌++◌, arith, inl, inr}
use csaf_trove.Base.Effect.{Result, ok, err, >>=-eq-ok, for_each, Result-cases}
use csaf_trove.Storage.TreeDiff.Repository.{Tree, TreeDelta, Repository}
use csaf_trove.Storage.TreeDiff.Compare.{tree_id, compare}
use csaf_trove.Storage.TreeDiff.Cache.{
  TreeDiffCache, cached, retain_delta, visit_delta, keep_retained, visit_compare, visit_cached,
  visit,
}
use csaf_trove.Storage.TreeDiff.Traces.{collect, compare-Traces}
use csaf_trove.Storage.TreeDiff.Replays.{compare-Replays}
use csaf_trove.Storage.TreeDiff.Sound.{
  tree_deltas, IsStored, AllStored, IsSound, cached-IsSound, remember-IsSound, is_for-trees,
}

retain_delta-eq-some :
    (d : TreeDelta) (retained : Option (List TreeDelta)) (items : List TreeDelta)
    → retain_delta d retained ≡ some items
    → (before : List TreeDelta) × (retained ≡ some before) × (items ≡ before ++ (d ∷ []))
unfolding retain_delta
retain_delta-eq-some d none items e = cc
retain_delta-eq-some d (some before) items e = (before, refl, ground arith)

module _ {ℓ} {S : Type ℓ} (repo : Repository) (fuel : ℕ) (visitor : TreeDelta → S → Result S) where
  -- Recording beside the visitor changes nothing for it, and what is retained is all deltas.
  visit_delta-retains :
      (ds : List TreeDelta) (s s' : S) (retained kept : Option (List TreeDelta))
      → for_each (visit_delta repo fuel visitor) ds (s, retained) ≡ ok (s', kept)
      → (for_each visitor ds s ≡ ok s')
        × ((items : List TreeDelta)
            → kept ≡ some items
            → (before : List TreeDelta) × (retained ≡ some before) × (items ≡ before ++ ds))
  unfolding for_each visit_delta
  visit_delta-retains [] s s' retained kept e = (cc, (λ items k. (items, (cc), rw append-nil)))
  visit_delta-retains (d ∷ ds) s s' retained kept e = elim (Result-cases (visitor d s)) [
    | inl (t, h) ↦
        let (visits, keeps) =
          visit_delta-retains ds t s' (retain_delta d retained) kept (rw h at e) in
        (
          rw h visits,
          (λ items k.
              let (mid, r, split) = keeps items k in
              let (before, b, grown) = retain_delta-eq-some d retained mid r in
              (before, b, split ∙ rw (grown, append_assoc))),
        )
    | inr (m, h) ↦
        let wrong : Path (Result (S × Option (List TreeDelta))) (err m) (ok (s', kept)) =
          rw h at e in
        cc
  ]

  keep_retained-IsSound :
      (old : Option Tree) (new : Tree) (cache : TreeDiffCache) (attempts : ℕ) (ds : List TreeDelta)
      → AllStored repo old
      → IsStored repo new
      → tree_deltas repo fuel old new ≡ ok ds
      → IsSound repo fuel cache
      → (retained : Option (List TreeDelta))
      → ((items : List TreeDelta) → retained ≡ some items → items ≡ ds)
      → IsSound repo fuel (record cache {
        entries = keep_retained repo fuel visitor old new retained cache.entries;
        diffs_attempted = attempts;
      })
  unfolding keep_retained
  keep_retained-IsSound old new cache attempts ds so sn reference sound none keeps = record {
    faithful = sound.faithful;
    bounded = sound.bounded;
  }
  keep_retained-IsSound old new cache attempts ds so sn reference sound (some items) keeps =
      remember-IsSound repo fuel (record { old = tree_id old; new = new.id; deltas = items }) cache
        attempts
        (λ old' new' so' sn' hit.
          let (eo, en) = is_for-trees repo old old' new new' items so so' sn sn' hit in
          rw (← eo, ← en, keeps items refl) reference)
        sound

  visit_compare-IsSound :
      (old : Option Tree) (new : Tree) (cache cache' : TreeDiffCache) (s s' : S)
      → AllStored repo old
      → IsStored repo new
      → IsSound repo fuel cache
      → visit_compare repo fuel visitor old new cache s ≡ ok (s', cache')
      → (ds : List TreeDelta) × (tree_deltas repo fuel old new ≡ ok ds)
        × (for_each visitor ds s ≡ ok s')
        × IsSound repo fuel cache'
  unfolding visit_compare
  visit_compare-IsSound old new cache cache' s s' so sn sound e =
      let (end, compared, rest) =
        >>=-eq-ok
          (compare repo (visit_delta repo fuel visitor) fuel old (some new) []
            ((s, some []), cache.diffs_attempted))
          _ e in
      let (ds, gathers, visits) =
        compare-Traces (visit_delta repo fuel visitor) repo fuel old (some new) [] (s, some [])
          end.0 cache.diffs_attempted end.1 compared in
      let (n, gathered) = gathers [] 0 in
      let reference : tree_deltas repo fuel old new ≡ ok ds = rw gathered in
      let (visited, keeps) = visit_delta-retains ds s end.0.0 (some []) end.0.1 visits in
      let same : s' ≡ end.0.0 = cc in
      let ec : record cache {
        entries = keep_retained repo fuel visitor old new end.0.1 cache.entries;
        diffs_attempted = end.1;
      }
          ≡ cache' =
        cc in
      (
        ds,
        reference,
        rw same visited,
        subst (IsSound repo fuel) ec (
            keep_retained-IsSound old new cache end.1 ds so sn reference sound end.0.1 (λ items k.
              let (before, b, split) = keeps items k in
              let none_before : [] ≡ before = cc in rw (split, ← none_before))),
      )

  visit_cached-IsSound :
      (old : Option Tree) (new : Tree) (cache cache' : TreeDiffCache) (s s' : S)
      → AllStored repo old
      → IsStored repo new
      → IsSound repo fuel cache
      → (hit : Option (List TreeDelta × TreeDiffCache)) → cached (tree_id old) new.id cache ≡ hit
      → visit_cached repo fuel visitor hit (visit_compare repo fuel visitor old new cache s) s
        ≡ ok (s', cache')
      → (ds : List TreeDelta) × (tree_deltas repo fuel old new ≡ ok ds)
        × (for_each visitor ds s ≡ ok s')
        × IsSound repo fuel cache'
  unfolding visit_cached
  visit_cached-IsSound old new cache cache' s s' so sn sound none h e =
      visit_compare-IsSound old new cache cache' s s' so sn sound e
  visit_cached-IsSound old new cache cache' s s' so sn sound (some (deltas, moved)) h e =
      let (reference, kept) = cached-IsSound repo fuel old new cache moved deltas so sn sound h in
      let (t, visited, rest) = >>=-eq-ok (for_each visitor deltas s) (λ t. ok (t, moved)) e in
      let same : s' ≡ t = cc in
      let ec : moved ≡ cache' = cc in
      (deltas, reference, rw same visited, subst (IsSound repo fuel) ec kept)

  -- A visit that succeeds gave the visitor exactly the deltas of an uncached comparison of the
  -- two trees, each once and in order, whether the cache knew them or not. The cache stays sound:
  -- its entries are such comparisons, and there are at most `CACHE_ENTRIES` of them.
  pub visit-IsSound :
      (old : Option Tree) (new : Tree) (cache cache' : TreeDiffCache) (s s' : S)
      → AllStored repo old
      → IsStored repo new
      → IsSound repo fuel cache
      → visit repo fuel visitor old new cache s ≡ ok (s', cache')
      → (ds : List TreeDelta) × (tree_deltas repo fuel old new ≡ ok ds)
        × (for_each visitor ds s ≡ ok s')
        × IsSound repo fuel cache'
  unfolding visit
  visit-IsSound old new cache cache' s s' so sn sound e =
      visit_cached-IsSound old new cache cache' s s' so sn sound (cached (tree_id old) new.id cache)
        refl e

  visit_delta-replays :
      (ds : List TreeDelta) (s s' : S) (retained : Option (List TreeDelta))
      → for_each visitor ds s ≡ ok s'
      → (kept : Option (List TreeDelta)) × (for_each
            (visit_delta repo fuel visitor)
            ds
            (s, retained)
          ≡ ok (s', kept))
  unfolding for_each visit_delta
  visit_delta-replays [] s s' retained e = let same : s ≡ s' = cc in (retained, rw same)
  visit_delta-replays (d ∷ ds) s s' retained e =
      let (t, v, rest) = >>=-eq-ok (visitor d s) (for_each visitor ds) e in
      let (kept, r) = visit_delta-replays ds t s' (retain_delta d retained) rest in (kept, rw v r)

  visit_cached-total :
      (old : Option Tree) (new : Tree) (cache : TreeDiffCache) (s s' : S) (ds : List TreeDelta)
      → AllStored repo old
      → IsStored repo new
      → IsSound repo fuel cache
      → tree_deltas repo fuel old new ≡ ok ds
      → for_each visitor ds s ≡ ok s'
      → (hit : Option (List TreeDelta × TreeDiffCache)) → cached (tree_id old) new.id cache ≡ hit
      → (cache' : TreeDiffCache) × (visit_cached repo fuel visitor hit
            (visit_compare repo fuel visitor old new cache s)
            s
          ≡ ok (s', cache'))
  unfolding visit_cached visit_compare
  visit_cached-total old new cache s s' ds so sn sound reference v (some (deltas, moved)) h =
      let (known, kept) = cached-IsSound repo fuel old new cache moved deltas so sn sound h in
      let same : ds ≡ deltas = cc in (moved, rw (← same, v))
  visit_cached-total old new cache s s' ds so sn sound reference v none h =
      let (end, compared, rest) =
        >>=-eq-ok (compare repo collect fuel old (some new) [] ([], 0)) (λ r. ok r.0) reference in
      let (es, split, replay) =
        compare-Replays (visit_delta repo fuel visitor) repo fuel old (some new) [] [] end.0 0 end.1
          compared in
      let same : es ≡ ds = cc in
      let (kept, r) = visit_delta-replays ds s s' (some []) v in
      let (n, ran) = replay (s, some []) (s', kept) cache.diffs_attempted (rw same r) in
      (
        record cache {
          entries = keep_retained repo fuel visitor old new kept cache.entries;
          diffs_attempted = n;
        },
        rw ran,
      )

  -- A visit of stored trees over a sound cache succeeds where the uncached comparison succeeds and
  -- the visitor accepts its deltas, and then gives the visitor exactly those, each once and in
  -- order, whether the cache knew them or not. The cache stays sound: its entries are such
  -- comparisons, and there are at most `CACHE_ENTRIES` of them.
  pub visit_lem :
      (old : Option Tree) (new : Tree) (cache : TreeDiffCache) (s s' : S) (ds : List TreeDelta)
      → AllStored repo old
      → IsStored repo new
      → IsSound repo fuel cache
      → tree_deltas repo fuel old new ≡ ok ds
      → for_each visitor ds s ≡ ok s'
      → (cache' : TreeDiffCache) × (visit repo fuel visitor old new cache s ≡ ok (s', cache'))
        × IsSound repo fuel cache'
  unfolding visit
  visit_lem old new cache s s' ds so sn sound reference v =
      let (cache', ran) =
        visit_cached-total old new cache s s' ds so sn sound reference v
          (cached (tree_id old) new.id cache) refl in
      (cache', ran, (visit-IsSound old new cache cache' s s' so sn sound ran).3)
