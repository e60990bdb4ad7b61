-- ===== src/Storage/TreeDiff/Sound.antt =====
-- A sound cache holds comparisons of stored trees, and stays within its bound.
use mathlib.Core.Path.{subst}
use csaf_trove.Base.{
  ℕ, suc, ◌≤◌, ◌≡◌, refl, ap, true, Option, none, some, List, [], ◌∷◌, ◌++◌, arith, length, ◌==◌,
  Bool-cases, inl, inr, All, All-append, length-append,
}
use csaf_trove.Base.Text.{text_eq, text_eq_iff}
use csaf_trove.Base.Effect.{Result, ok, ◌>>=◌}
use csaf_trove.Storage.TreeDiff.Repository.{Oid, Tree, TreeDelta, Repository}
use csaf_trove.Storage.TreeDiff.Compare.{same_oid, tree_id, compare}
use csaf_trove.Storage.TreeDiff.Cache.{
  TreeDiffCache, CachedTreeDiff, is_for, put_back, take_entry, promote, cached, remember,
  cache_entries,
}
use csaf_trove.Storage.TreeDiff.Traces.{collect}

-- The comparison of two trees as a list, without a cache: the reference for what `visit` streams.
abbrev pub tree_deltas : Repository → ℕ → Option Tree → Tree → Result (List TreeDelta)
tree_deltas repo fuel old new = compare repo collect fuel old (some new) [] ([], 0) >>= λ r. ok r.0

-- The tree is the object that its identity names in the repository.
abbrev pub IsStored : Repository → Tree → Type 0
IsStored repo t = repo.find_tree t.id ≡ ok t

abbrev pub AllStored : Repository → Option Tree → Type 0
AllStored repo none = Unit
AllStored repo (some t) = IsStored repo t

module _ (repo : Repository) (fuel : ℕ) where
  -- An entry holds the comparison of whatever stored trees its key names.
  abbrev pub IsFaithful : CachedTreeDiff → Type 0
  IsFaithful e =
      (old : Option Tree) (new : Tree)
      → AllStored repo old
      → IsStored repo new
      → is_for (tree_id old) new.id e ≡ true
      → tree_deltas repo fuel old new ≡ ok e.deltas

  pub record IsSound (cache : TreeDiffCache) : Type 0 where
    pub faithful : All IsFaithful cache.entries
    pub bounded : length cache.entries ≤ cache_entries

  abbrev Taken :
      Option Oid → Oid → List CachedTreeDiff → CachedTreeDiff → List CachedTreeDiff → Type 0
  Taken old new es e others =
      IsFaithful e
      × All IsFaithful others
      × (is_for old new e ≡ true)
      × (length es ≡ suc (length others))

  put_back-All :
      (old : Option Oid) (new : Oid) (x : CachedTreeDiff) (es : List CachedTreeDiff)
      (e : CachedTreeDiff) (others : List CachedTreeDiff)
      → All IsFaithful (x ∷ es)
      → ((e : CachedTreeDiff) (others : List CachedTreeDiff)
          → All IsFaithful es
          → take_entry old new es ≡ some (e, others)
          → Taken old new es e others)
      → (rest : Option (CachedTreeDiff × List CachedTreeDiff)) → take_entry old new es ≡ rest
      → put_back x rest ≡ some (e, others)
      → Taken old new (x ∷ es) e others
  unfolding put_back
  put_back-All old new x es e others h ih none t found = cc
  put_back-All old new x es e others h ih (some (f, os)) t found =
      let ef : f ≡ e = cc in
      let eo : x ∷ os ≡ others = cc in
      let (faithful, all, hit, count) = ih f os h.1 t in
      (
        subst IsFaithful ef faithful,
        subst (All IsFaithful) eo (h.0, all),
        rw (← ef) hit,
        rw (← eo) (ap suc count),
      )

  take_entry-All :
      (old : Option Oid) (new : Oid) (es : List CachedTreeDiff) (e : CachedTreeDiff)
      (others : List CachedTreeDiff)
      → All IsFaithful es
      → take_entry old new es ≡ some (e, others)
      → Taken old new es e others
  unfolding take_entry
  take_entry-All old new [] e others h found = cc
  take_entry-All old new (x ∷ es) e others h found = elim (Bool-cases (is_for old new x)) [
    | inl hit ↦
        let pair : Path (Option (CachedTreeDiff × List CachedTreeDiff)) (some (x, es))
            (some (e, others)) =
          rw hit at found in
        let ex : x ≡ e = cc in
        let eo : es ≡ others = cc in
        (subst IsFaithful ex h.0, subst (All IsFaithful) eo h.1, rw (← ex) hit, rw eo)
    | inr miss ↦
        put_back-All old new x es e others h (take_entry-All old new es) (take_entry old new es)
          refl (rw miss at found)
  ]

  promote-IsSound :
      (old : Option Tree) (new : Tree) (cache cache' : TreeDiffCache) (deltas : List TreeDelta)
      → AllStored repo old
      → IsStored repo new
      → IsSound cache
      → (taken : Option (CachedTreeDiff × List CachedTreeDiff))
      → take_entry (tree_id old) new.id cache.entries ≡ taken
      → promote cache taken ≡ some (deltas, cache')
      → (tree_deltas repo fuel old new ≡ ok deltas) × IsSound cache'
  unfolding promote
  promote-IsSound old new cache cache' deltas so sn sound none t found = cc
  promote-IsSound old new cache cache' deltas so sn sound (some (entry, others)) t found =
      let (faithful, all, hit, count) =
        take_entry-All (tree_id old) new.id cache.entries entry others sound.faithful t in
      let ed : entry.deltas ≡ deltas = cc in
      let moved : TreeDiffCache = record cache {
        entries = others ++ (entry ∷ []);
        cache_hits = suc cache.cache_hits;
      } in
      let ec : moved ≡ cache' = cc in
      (
        rw (← ed) (faithful old new so sn hit),
        subst IsSound ec (record {
          faithful = All-append IsFaithful others (entry ∷ []) all (faithful, tt);
          bounded = omega (arith, count, sound.bounded, length-append others (entry ∷ []));
        }),
      )

  -- A hit gives the comparison of the trees that are asked for, and keeps the cache sound.
  pub cached-IsSound :
      (old : Option Tree) (new : Tree) (cache cache' : TreeDiffCache) (deltas : List TreeDelta)
      → AllStored repo old
      → IsStored repo new
      → IsSound cache
      → cached (tree_id old) new.id cache ≡ some (deltas, cache')
      → (tree_deltas repo fuel old new ≡ ok deltas) × IsSound cache'
  unfolding cached
  cached-IsSound old new cache cache' deltas so sn sound found =
      promote-IsSound old new cache cache' deltas so sn sound
        (take_entry (tree_id old) new.id cache.entries) refl found

  remember-All :
      (entry : CachedTreeDiff) (es : List CachedTreeDiff)
      → IsFaithful entry
      → All IsFaithful es
      → All IsFaithful (remember entry es)
  unfolding remember
  remember-All entry [] h all = (h, tt)
  remember-All entry (e ∷ es) h all = elim (Bool-cases (length (e ∷ es) == cache_entries)) [
    | inl full ↦ rw full (All-append IsFaithful es (entry ∷ []) all.1 (h, tt))
    | inr room ↦ rw room (all.0, All-append IsFaithful es (entry ∷ []) all.1 (h, tt))
  ]

  length-remember :
      (entry : CachedTreeDiff) (es : List CachedTreeDiff)
      → length es ≤ cache_entries
      → length (remember entry es) ≤ cache_entries
  unfolding remember
  length-remember entry [] h = omega arith
  length-remember entry (e ∷ es) h = ground (arith, length-append es (entry ∷ []))

  pub remember-IsSound :
      (entry : CachedTreeDiff) (cache : TreeDiffCache) (attempts : ℕ)
      → IsFaithful entry
      → IsSound cache
      → IsSound
          (record cache { entries = remember entry cache.entries; diffs_attempted = attempts })
  remember-IsSound entry cache attempts faithful sound = record {
    faithful = remember-All entry cache.entries faithful sound.faithful;
    bounded = length-remember entry cache.entries sound.bounded;
  }

-- Trees with one identity are one tree.
stored_unique :
    (repo : Repository) (t u : Tree) → IsStored repo t → IsStored repo u → t.id ≡ u.id → t ≡ u
stored_unique repo t u st su e = cc

pub same_oid-eq : (a b : Option Oid) → same_oid a b ≡ true → a ≡ b
unfolding same_oid
same_oid-eq none none h = refl
same_oid-eq none (some b) h = cc
same_oid-eq (some a) none h = cc
same_oid-eq (some a) (some b) h = ap some ((text_eq_iff a b).0 h)

option_stored_unique :
    (repo : Repository) (t u : Option Tree)
    → AllStored repo t
    → AllStored repo u
    → tree_id t ≡ tree_id u
    → t ≡ u
option_stored_unique repo none none st su e = refl
option_stored_unique repo none (some u) st su e = cc
option_stored_unique repo (some t) none st su e = cc
option_stored_unique repo (some t) (some u) st su e = let same : t.id ≡ u.id = cc in cc

-- An entry made for two trees is found for no others.
pub is_for-trees :
    (repo : Repository) (old old' : Option Tree) (new new' : Tree) (items : List TreeDelta)
    → AllStored repo old
    → AllStored repo old'
    → IsStored repo new
    → IsStored repo new'
    → is_for (tree_id old') new'.id (record { old = tree_id old; new = new.id; deltas = items })
      ≡ true
    → (old ≡ old') × (new ≡ new')
unfolding is_for
is_for-trees repo old old' new new' items so so' sn sn' hit =
    let first : same_oid (tree_id old) (tree_id old') ≡ true = ground arith in
    let second : text_eq new.id new'.id ≡ true = ground arith in
    (
      option_stored_unique repo old old' so so' (same_oid-eq (tree_id old) (tree_id old') first),
      stored_unique repo new new' sn sn' ((text_eq_iff new.id new'.id).0 second),
    )
