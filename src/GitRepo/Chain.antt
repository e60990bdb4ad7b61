-- ===== src/GitRepo/Chain.antt =====
-- What `collect_versions` emits for a history of first parents.
use mathlib.Core.List.{reverse, reverse-cons, append_assoc, append-nil}
use csaf_trove.Base.{
  ℕ, zero, suc, ◌≤◌, ◌≡◌, refl, ◌∙◌, sym, ap, Bool, true, false, ◌&&◌, Option, none, some, List, [],
  ◌∷◌, ◌++◌, arith, length, map, retain, Bool-cases, Option-cases, inl, inr, if◌then◌else◌,
}
use csaf_trove.Base.Text.{Text}
use csaf_trove.Base.Effect.{
  Result, ok, err, ◌>>=◌, for_each, for_each-append, for_each_nil, for_each_single,
}
use csaf_trove.Storage.TreeDiff.Repository.{Oid, Tree, TreeDelta, Commit, Repository}
use csaf_trove.Storage.TreeDiff.Compare.{same_oid, tree_id}
use csaf_trove.Storage.TreeDiff.Cache.{TreeDiffCache, empty, cached, diff}
use csaf_trove.Storage.TreeDiff.Sound.{IsStored, AllStored, IsSound, tree_deltas, cached-IsSound}
use csaf_trove.Storage.TreeDiff.Visits.{visit_lem}
use csaf_trove.Processing.Paths.{advisory_path, path_url}
use csaf_trove.Processing.History.{empty-IsSound}
use csaf_trove.GitRepo.Versions.{
  ChangedDocument, CommitVersions, History, parse_tracking, first_parent, walk_commits, is_written,
  is_advisory_itself, changed_document, push_document, commit_documents, parent_tree,
  commit_versions, emit_documents, emit_commit, emit_commits, parse_since, collect_from, collect_at,
  collect_versions,
}

for_each-push :
    (ds before : List TreeDelta)
    → for_each (λ d es. ok (es ++ (d ∷ []))) ds before ≡ ok (before ++ ds)
unfolding for_each
for_each-push [] before = rw append-nil
for_each-push (d ∷ ds) before = for_each-push ds (before ++ (d ∷ [])) ∙ rw append_assoc

-- The comparison as a list is the uncached one.
diff-IsSound :
    (repo : Repository) (levels : ℕ) (old : Option Tree) (new : Tree) (cache : TreeDiffCache)
    (ds : List TreeDelta)
    → AllStored repo old
    → IsStored repo new
    → IsSound repo levels cache
    → tree_deltas repo levels old new ≡ ok ds
    → (cache' : TreeDiffCache) × (diff repo levels old new cache ≡ ok (ds, cache'))
      × IsSound repo levels cache'
unfolding diff
diff-IsSound repo levels old new cache ds so sn sound reference =
    elim (Option-cases (cached (tree_id old) new.id cache)) [
      | inl miss ↦
          let (cache', ran, sound') =
            visit_lem repo levels (λ d es. ok (es ++ (d ∷ []))) old new cache [] ds ds so sn sound
              reference (for_each-push ds []) in
          (cache', rw (miss, diff) ran, sound')
      | inr ((deltas, moved), known) ↦
          let (same, kept) =
            cached-IsSound repo levels old new cache moved deltas so sn sound known in
          let e : deltas ≡ ds = cc in (moved, rw (known, diff) (rw e), kept)
    ]

-- The blobs that the repository holds.
abbrev Reads : History → (Oid → Text) → Type 0
Reads h content = (id : Oid) → h.repo.find_blob id ≡ ok (content id)

abbrev writes_path : TreeDelta → Option Text → Bool
writes_path d none = false
writes_path d (some path) = is_written d.status && is_advisory_itself path (advisory_path path)

-- An advisory file, itself and not a file beside it, that the commit adds or changes.
abbrev pub is_version : TreeDelta → Bool
is_version d = writes_path d d.new_path

abbrev pub or_no_path : Option Text → Text
or_no_path none = []
or_no_path (some path) = path

unfoldable pub describe : History → (Oid → Text) → TreeDelta → ChangedDocument
describe h content d = record {
  url = path_url (or_no_path d.new_path);
  blob_id = d.new_id;
  tracking = parse_tracking h.envelope (content d.new_id);
}

map-cond :
    (f : TreeDelta → ChangedDocument) (b : Bool) (d : TreeDelta) (documents : List ChangedDocument)
    (ds : List TreeDelta)
    → (documents ++ (if b then f d ∷ [] else [])) ++ map f ds
      ≡ documents ++ map f (if b then d ∷ ds else ds)
map-cond f true d documents ds = rw append_assoc
map-cond f false d documents ds = rw append-nil

module _ (h : History) (content : Oid → Text) (reads : Reads h content) where
  push_document-written :
      (d : TreeDelta) (path : Option Text) (documents : List ChangedDocument)
      → d.new_path ≡ path
      → push_document h d path documents
        ≡ ok (documents ++ (if writes_path d path then describe h content d ∷ [] else []))
  unfolding push_document changed_document describe
  push_document-written d none documents e = rw append-nil
  push_document-written d (some path) documents e =
      elim (Bool-cases (is_written d.status && is_advisory_itself path (advisory_path path))) [
        | inl written ↦ rw (written, reads d.new_id, e)
        | inr other ↦ rw other (rw append-nil)
      ]

  for_each-push_document :
      (ds : List TreeDelta) (documents : List ChangedDocument)
      → for_each (λ d es. push_document h d d.new_path es) ds documents
        ≡ ok (documents ++ map (describe h content) (retain is_version ds))
  unfolding for_each
  for_each-push_document [] documents = rw append-nil
  for_each-push_document (d ∷ ds) documents =
      rw (push_document-written d d.new_path documents refl) (
        for_each-push_document ds _
        ∙ ap (λ es. ok es)
            (map-cond (describe h content) (is_version d) d documents (retain is_version ds)))

  commit_documents_lem :
      (ds : List TreeDelta)
      → commit_documents h ds ≡ ok (map (describe h content) (retain is_version ds))
  unfolding commit_documents
  commit_documents_lem ds = for_each-push_document ds []

-- What is emitted for a commit's documents.
abbrev pub emission : History → Commit → List ChangedDocument → List CommitVersions
emission h c [] = []
emission h c (d ∷ ds) = commit_versions h c (d ∷ ds) ∷ []

-- A commit's first parent, and the deltas from the parent's tree to its own.
abbrev pub Step : Type 0
Step = Option Commit × List TreeDelta

-- The steps lead from the commit along first parents to the last commit before `since`, or to a
-- root, over trees that are stored and can be compared.
abbrev pub IsChain : Repository → ℕ → Option Oid → Commit → List Step → Type 0
IsChain repo levels since c [] = same_oid (some c.id) since ≡ true
IsChain repo levels since c ((none, ds) ∷ steps) =
    (same_oid (some c.id) since ≡ false)
    × (first_parent repo c ≡ none)
    × IsStored repo c.tree
    × (tree_deltas repo levels none c.tree ≡ ok ds)
IsChain repo levels since c ((some parent, ds) ∷ steps) =
    (same_oid (some c.id) since ≡ false)
    × (first_parent repo c ≡ some parent)
    × IsStored repo c.tree
    × IsStored repo parent.tree
    × (tree_deltas repo levels (some parent.tree) c.tree ≡ ok ds)
    × IsChain repo levels since parent steps

abbrev commits : Commit → List Step → List Commit
commits c [] = []
commits c ((none, ds) ∷ steps) = c ∷ []
commits c ((some parent, ds) ∷ steps) = c ∷ commits parent steps

walk_commits-Chain :
    (fuel levels : ℕ) (repo : Repository) (since : Option Oid) (c : Commit) (steps : List Step)
    → IsChain repo levels since c steps
    → length steps ≤ fuel
    → walk_commits fuel repo since c ≡ ok (commits c steps)
unfolding walk_commits
walk_commits-Chain zero levels repo since c [] chain le = rw chain
walk_commits-Chain (suc fuel) levels repo since c [] chain le = rw chain
walk_commits-Chain zero levels repo since c (x ∷ steps) chain le = absurd (omega arith)
walk_commits-Chain (suc fuel) levels repo since c ((none, ds) ∷ steps) chain le =
    rw (chain.0, chain.1)
walk_commits-Chain (suc fuel) levels repo since c ((some parent, ds) ∷ steps) chain le =
    rw (
      chain.0,
      chain.1,
      walk_commits-Chain fuel levels repo since parent steps chain.5 (omega arith),
    )

-- The documents that each commit writes, the oldest commit first, without those that write none.
unfoldable pub emitted : History → (Oid → Text) → Commit → List Step → List CommitVersions
unfolding describe commit_versions
emitted h content c [] = []
emitted h content c ((none, ds) ∷ steps) =
    emission h c (map (describe h content) (retain is_version ds))
emitted h content c ((some parent, ds) ∷ steps) =
    emitted h content parent steps ++ emission h c (map (describe h content) (retain is_version ds))

module _ {ℓ} {S : Type ℓ} (levels : ℕ) (h : History) (content : Oid → Text)
    (emit : CommitVersions → S → Result S) (reads : Reads h content) where
  emit_documents-emission :
      (c : Commit) (documents : List ChangedDocument) (s : S)
      → emit_documents levels h emit c documents s ≡ for_each emit (emission h c documents) s
  unfolding emit_documents for_each
  emit_documents-emission c [] s = refl
  emit_documents-emission c (d ∷ ds) s = sym (for_each_single emit (commit_versions h c (d ∷ ds)) s)

  -- A run with the cache that goes like one without.
  abbrev Goes : Result (S × TreeDiffCache) → Result S → Type ℓ
  Goes run (err e) = run ≡ err e
  Goes run (ok s) = (cache : TreeDiffCache) × (run ≡ ok (s, cache)) × IsSound h.repo levels cache

  Goes-ok :
      (r : Result S) (cache : TreeDiffCache)
      → IsSound h.repo levels cache
      → Goes (r >>= λ s. ok (s, cache)) r
  Goes-ok (err e) cache sound = refl
  Goes-ok (ok s) cache sound = (cache, refl, sound)

  Goes-bind :
      (run : Result (S × TreeDiffCache)) (r : Result S)
      (k : S × TreeDiffCache → Result (S × TreeDiffCache)) (f : S → Result S)
      → Goes run r
      → ((s : S) (cache : TreeDiffCache) → IsSound h.repo levels cache → Goes (k (s, cache)) (f s))
      → Goes (run >>= k) (r >>= f)
  Goes-bind run (err e) k f first rest = rw first
  Goes-bind run (ok s) k f (cache, ran, sound) rest = rw ran (rest s cache sound)

  emit_commit-Goes :
      (c : Commit) (parent : Option Commit) (ds : List TreeDelta) (s : S) (cache : TreeDiffCache)
      → first_parent h.repo c ≡ parent
      → AllStored h.repo (parent_tree parent)
      → IsStored h.repo c.tree
      → tree_deltas h.repo levels (parent_tree parent) c.tree ≡ ok ds
      → IsSound h.repo levels cache
      → Goes
          (emit_commit levels h emit c (s, cache))
          (for_each emit (emission h c (map (describe h content) (retain is_version ds))) s)
  unfolding emit_commit
  emit_commit-Goes c parent ds s cache first sp sc reference sound =
      let (cache', ran, sound') =
        diff-IsSound h.repo levels (parent_tree parent) c.tree cache ds sp sc sound reference in
      rw
        (
          first,
          ran,
          commit_documents_lem h content reads ds,
          emit_documents-emission c (map (describe h content) (retain is_version ds)) s,
        )
        (Goes-ok (for_each emit (emission h c (map (describe h content) (retain is_version ds))) s)
          cache' sound')

  emitted-Goes :
      (since : Option Oid) (c : Commit) (steps : List Step) (s : S) (cache : TreeDiffCache)
      → IsChain h.repo levels since c steps
      → IsSound h.repo levels cache
      → Goes
          (for_each (emit_commit levels h emit) (reverse (commits c steps)) (s, cache))
          (for_each emit (emitted h content c steps) s)
  unfolding emitted
  emitted-Goes since c [] s cache chain sound =
      rw (for_each_nil (emit_commit levels h emit) (s, cache), for_each_nil emit s)
        (cache, refl, sound)
  emitted-Goes since c ((none, ds) ∷ steps) s cache chain sound =
      rw (for_each_single (emit_commit levels h emit) c (s, cache))
        (emit_commit-Goes c none ds s cache chain.1 tt chain.2 chain.3 sound)
  emitted-Goes since c ((some parent, ds) ∷ steps) s cache chain sound =
      rw
        (
          reverse-cons c (commits parent steps),
          for_each-append (emit_commit levels h emit) (reverse (commits parent steps)) (c ∷ [])
              (s, cache),
          for_each-append emit (emitted h content parent steps)
              (emission h c (map (describe h content) (retain is_version ds))) s,
        )
        (Goes-bind _ _ _ _ (emitted-Goes since parent steps s cache chain.5 sound)
          (λ s' cache' sound'.
            rw (for_each_single (emit_commit levels h emit) c (s', cache')) (
              emit_commit-Goes c (some parent) ds s' cache' chain.1 chain.3 chain.2 chain.4
                sound')))

  Goes-result :
      (run : Result (S × TreeDiffCache)) (r : Result S) → Goes run r → (run >>= λ t. ok t.0) ≡ r
  Goes-result run (err e) goes = rw goes
  Goes-result run (ok s) goes = rw goes.1

  collect_from-Chain :
      (fuel : ℕ) (since : Option Text) (stop : Option Oid) (head : Commit) (steps : List Step)
      (s : S)
      → parse_since levels h emit since ≡ ok stop
      → IsChain h.repo levels stop head steps
      → length steps ≤ fuel
      → collect_from levels h emit fuel since (ok head) s
        ≡ for_each emit (emitted h content head steps) s
  unfolding collect_from emit_commits
  collect_from-Chain fuel since stop head steps s parsed chain le =
      rw (parsed, walk_commits-Chain fuel levels h.repo stop head steps chain le)
        (Goes-result _ _ (emitted-Goes stop head steps s empty chain (empty-IsSound h.repo levels)))

  -- Over a history of first parents down to `since` or to the root, with fuel for its commits and
  -- readable blobs, the versions are handed on as a loop over the commits would, the oldest first:
  -- for each commit that writes an advisory the documents it adds or changes, in order, and nothing
  -- for the others. The cache is not seen, and the first failure of the receiver is the result.
  pub collect_versions-Chain :
      (fuel : ℕ) (since : Option Text) (stop : Option Oid) (head : Commit) (steps : List Step)
      (s : S)
      → h.head ≡ some (ok head)
      → parse_since levels h emit since ≡ ok stop
      → IsChain h.repo levels stop head steps
      → length steps ≤ fuel
      → collect_versions levels h emit fuel since s ≡ for_each emit (emitted h content head steps) s
  unfolding collect_versions collect_at
  collect_versions-Chain fuel since stop head steps s at_head parsed chain le =
      ap (λ tip. collect_at levels h emit fuel since tip s) at_head
      ∙ collect_from-Chain fuel since stop head steps s parsed chain le
