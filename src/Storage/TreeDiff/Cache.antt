-- ===== src/Storage/TreeDiff/Cache.antt =====
-- `TreeDiffCache`: recently used comparisons, the oldest first, and its counters.
use csaf_trove.Base.{
  ℕ, suc, Bool, ◌&&◌, Option, none, some, List, [], ◌∷◌, ◌++◌, length, ltb, ◌==◌, if◌then◌else◌,
}
use csaf_trove.Base.Text.{text_eq}
use csaf_trove.Base.Effect.{Result, ok, ◌>>=◌, for_each}
use csaf_trove.Storage.TreeDiff.Repository.{Oid, Tree, TreeDelta, Repository}
use csaf_trove.Storage.TreeDiff.Compare.{same_oid, tree_id, compare}

-- `CACHE_ENTRIES`
abbrev pub cache_entries : ℕ
cache_entries = 32

-- `CACHE_MAX_DELTAS`
abbrev pub cache_max_deltas : ℕ
cache_max_deltas = 1024

pub record CachedTreeDiff : Type 0 where
  pub old : Option Oid
  pub new : Oid
  pub deltas : List TreeDelta

pub record TreeDiffCache : Type 0 where
  pub entries : List CachedTreeDiff
  pub diffs_attempted : ℕ
  pub cache_hits : ℕ

-- `TreeDiffCache::default`
unfoldable pub empty : TreeDiffCache
empty = record { entries = []; diffs_attempted = 0; cache_hits = 0 }

unfoldable pub is_for : Option Oid → Oid → CachedTreeDiff → Bool
unfolding same_oid
is_for old new e = same_oid e.old old && text_eq e.new new

unfoldable pub put_back :
    CachedTreeDiff
    → Option (CachedTreeDiff × List CachedTreeDiff)
    → Option (CachedTreeDiff × List CachedTreeDiff)
put_back e none = none
put_back e (some (found, others)) = some (found, e ∷ others)

-- `position` and `remove`: the first entry for the key, and the entries without it.
unfoldable pub take_entry :
    Option Oid → Oid → List CachedTreeDiff → Option (CachedTreeDiff × List CachedTreeDiff)
unfolding is_for put_back
take_entry old new [] = none
take_entry old new (e ∷ es) =
    if is_for old new e then some (e, es) else put_back e (take_entry old new es)

unfoldable pub promote :
    TreeDiffCache
    → Option (CachedTreeDiff × List CachedTreeDiff)
    → Option (List TreeDelta × TreeDiffCache)
promote cache none = none
promote cache (some (entry, others)) = some (
  entry.deltas,
  record cache { entries = others ++ (entry ∷ []); cache_hits = suc cache.cache_hits },
)

-- `cached`: a hit moves the entry to the back.
unfoldable pub cached : Option Oid → Oid → TreeDiffCache → Option (List TreeDelta × TreeDiffCache)
unfolding take_entry promote
cached old new cache = promote cache (take_entry old new cache.entries)

-- What `visit` does with a retained comparison: the front makes room if the cache is full.
unfoldable pub remember : CachedTreeDiff → List CachedTreeDiff → List CachedTreeDiff
remember entry [] = entry ∷ []
remember entry (e ∷ es) =
    if length (e ∷ es) == cache_entries then es ++ (entry ∷ []) else (e ∷ es) ++ (entry ∷ [])

unfoldable pub retain_delta : TreeDelta → Option (List TreeDelta) → Option (List TreeDelta)
retain_delta d none = none
retain_delta d (some items) =
    if ltb (length items) cache_max_deltas then some (items ++ (d ∷ [])) else none

module _ {ℓ} {S : Type ℓ} (repo : Repository) (fuel : ℕ) (visitor : TreeDelta → S → Result S) where
  -- The callback that `visit` hands to `compare`.
  unfoldable pub visit_delta :
      TreeDelta → S × Option (List TreeDelta) → Result (S × Option (List TreeDelta))
  unfolding retain_delta
  visit_delta d (s, retained) = visitor d s >>= λ s'. ok (s', retain_delta d retained)

  unfoldable pub keep_retained :
      Option Tree → Tree → Option (List TreeDelta) → List CachedTreeDiff → List CachedTreeDiff
  unfolding remember
  keep_retained old new none entries = entries
  keep_retained old new (some deltas) entries =
      remember (record { old = tree_id old; new = new.id; deltas = deltas }) entries

  -- The part of `visit` behind a miss.
  unfoldable pub visit_compare : Option Tree → Tree → TreeDiffCache → S → Result (S × TreeDiffCache)
  unfolding visit_delta keep_retained
  visit_compare old new cache s = do
    ((s', retained), attempts) ←
        compare repo visit_delta fuel old (some new) [] ((s, some []), cache.diffs_attempted)
    ok (
      s',
      record cache {
        entries = keep_retained old new retained cache.entries;
        diffs_attempted = attempts;
      },
    )

  -- The deltas of a hit are streamed; `missed` is what a miss gives.
  unfoldable pub visit_cached :
      Option (List TreeDelta × TreeDiffCache)
      → Result (S × TreeDiffCache)
      → S
      → Result (S × TreeDiffCache)
  unfolding for_each
  visit_cached none missed s = missed
  visit_cached (some (deltas, cache')) missed s =
      for_each visitor deltas s >>= λ s'. ok (s', cache')

  unfoldable pub visit : Option Tree → Tree → TreeDiffCache → S → Result (S × TreeDiffCache)
  unfolding cached visit_compare visit_cached
  visit old new cache s =
      visit_cached (cached (tree_id old) new.id cache) (visit_compare old new cache s) s

-- `diff`: the comparison as a list.
unfoldable pub diff :
    Repository → ℕ → Option Tree → Tree → TreeDiffCache → Result (List TreeDelta × TreeDiffCache)
unfolding cached visit
diff repo fuel old new cache = elim (cached (tree_id old) new.id cache) [
  | some (deltas, cache') ↦ ok (deltas, cache')
  | none ↦ visit repo fuel (λ d ds. ok (ds ++ (d ∷ []))) old new cache []
]
