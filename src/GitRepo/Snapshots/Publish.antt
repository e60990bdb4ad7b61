-- ===== src/GitRepo/Snapshots/Publish.antt =====
-- A snapshot is published on the tip that it was prepared from, or not at all.
use csaf_trove.Base.{
  ℕ, ◌≡◌, refl, sym, ap, ◌∙◌, ◌⊎◌, inl, inr, Bool, true, false, Option, none, some, List,
  Bool-cases,
}
use csaf_trove.Base.Text.{Text, text_eq}
use csaf_trove.Base.Effect.{Result, ok, err, >>=-eq-ok, ok-injective}
use csaf_trove.Storage.TreeDiff.Repository.{Oid, Lookup, found, not_found, failed}
use csaf_trove.Storage.TreeDiff.Compare.{same_oid}
use csaf_trove.Storage.TreeDiff.Sound.{same_oid-eq}
use csaf_trove.GitRepo.Staging.{Worktree, Staging, stage_all}
use csaf_trove.GitRepo.Refs.{
  Git, GitLaws, Update, written, refused, broken, SameTips, tip_of, parent_list,
}
use csaf_trove.GitRepo.Snapshots.{
  PreparedWorktree, current_of, finish_update, publish_commit, commit_changed, base_tree,
  commit_tree_of, commit_staged, commit_current, commit_all_with_progress,
}

module _ {S : Type 0} (git : Git S) where
  -- The branch stood at the base and now stands at a commit of the tree whose only parent is the
  -- base; no other branch has moved.
  pub record IsPublished (w : PreparedWorktree) (tree : Oid) (s s' : S) : Type 0 where
    pub id : Oid
    pub before : git.tip w.branch s ≡ tip_of w.base_commit
    pub after : git.tip w.branch s' ≡ found id
    pub tree_of : git.commit_tree id s' ≡ ok tree
    pub parents : git.parents_of id s' ≡ ok (parent_list w.base_commit)
    pub others : (b : Text) → text_eq w.branch b ≡ false → git.tip b s' ≡ git.tip b s

  -- The tree is that of the base, and no branch has moved.
  pub record IsUnchanged (w : PreparedWorktree) (tree : Oid) (s s' : S) : Type 0 where
    pub id : Oid
    pub base : w.base_commit ≡ some id
    pub tree_of : git.commit_tree id s' ≡ ok tree
    pub tips : SameTips git s s'

  -- What a commit of the tree concludes with.
  abbrev pub Concludes : PreparedWorktree → Oid → S → Result Bool × S → Type 0
  Concludes w tree s (ok true, s') = IsPublished w tree s s'
  Concludes w tree s (ok false, s') = IsUnchanged w tree s s'
  Concludes w tree s (err e, s') = SameTips git s s'

  module _ (laws : GitLaws git) (w : PreparedWorktree) (tree : Oid) (s : S) where
    finish_update-Concludes :
        (id : Oid) (s' : S) (update : Update S)
        → SameTips git s s'
        → (git.commit_tree id s' ≡ ok tree)
        → (git.parents_of id s' ≡ ok (parent_list w.base_commit))
        → git.reference_matching w.branch id w.base_commit s' ≡ update
        → Concludes w tree s (finish_update git update s')
    unfolding finish_update
    finish_update-Concludes id s' refused same stored parents e = same
    finish_update-Concludes id s' (broken m) same stored parents e = same
    finish_update-Concludes id s' (written t) same stored parents e =
        let objects = laws.written-objects w.branch id w.base_commit s' t e id in
        record {
          id = id;
          before = sym (same w.branch) ∙ laws.written-expected w.branch id w.base_commit s' t e;
          after = laws.written-tip w.branch id w.base_commit s' t e;
          tree_of = objects.0 ∙ stored;
          parents = objects.1 ∙ parents;
          others = λ b ne. laws.written-others w.branch id w.base_commit s' t e b ne ∙ same b;
        }

    publish_commit-Concludes :
        (message : Text) (t : S) (r : Result (Oid × S))
        → SameTips git s t
        → git.commit tree (parent_list w.base_commit) message t ≡ r
        → Concludes w tree s (publish_commit git w.branch w.base_commit r t)
    unfolding publish_commit
    publish_commit-Concludes message t (err e) same ran = same
    publish_commit-Concludes message t (ok (id, s')) same ran =
        let (stored, parents) =
          laws.commit-stored tree (parent_list w.base_commit) message t s' id ran in
        finish_update-Concludes id s' (git.reference_matching w.branch id w.base_commit s')
          (λ b. laws.commit-tip tree (parent_list w.base_commit) message t s' id ran b ∙ same b)
          stored parents refl

    unchanged :
        (t : S) (base : Option Oid)
        → base_tree git base t ≡ ok (some tree)
        → (id : Oid) × (base ≡ some id) × (git.commit_tree id t ≡ ok tree)
    unfolding base_tree
    unchanged t none e = cc
    unchanged t (some id) e =
        let (found_tree, read, done) = >>=-eq-ok (git.commit_tree id t) _ e in
        let same : Path (Option Oid) (some found_tree) (some tree) = ok-injective done in
        let eq : found_tree ≡ tree = cc in (id, refl, read ∙ ap (λ (o : Oid). ok o) eq)

    commit_changed-Concludes :
        (message : Text) (t : S) (parent : Result (Option Oid))
        → SameTips git s t
        → base_tree git w.base_commit t ≡ parent
        → Concludes w tree s (commit_changed git w message tree parent t)
    unfolding commit_changed
    commit_changed-Concludes message t (err e) same read = same
    commit_changed-Concludes message t (ok parent) same read =
        elim (Bool-cases (same_oid parent (some tree))) [
          | inl equal ↦ rw equal (
              let (id, base, stored) =
                unchanged t w.base_commit
                  (read ∙ ap (λ (p : Option Oid). ok p) (same_oid-eq parent (some tree) equal)) in
              record { id = id; base = base; tree_of = stored; tips = same })
          | inr differs ↦ rw differs (
              publish_commit-Concludes message t
                (git.commit tree (parent_list w.base_commit) message t) same refl)
        ]

  module _ (blob_id : Text → Oid) (write_pack : List Oid → Result (Unit {0})) (others : S → S)
      (threshold : ℕ) (files : Worktree) (w : PreparedWorktree) (message : Text) where
    -- What was staged and written as a tree.
    pub record IsSnapshot (tree : Oid) (s : S) : Type 0 where
      pub staging : Staging
      pub staged : stage_all blob_id write_pack threshold files w.index ≡ ok staging
      pub after : S
      pub tree_written : git.write_tree staging.index (others s) ≡ ok (tree, after)

    -- How a commit ends, from the state that it began in.
    abbrev pub Ends : S → Result Bool × S → Type 0
    Ends s (err e, s') = SameTips git s s' ⊎ SameTips git (others s) s'
    Ends s (ok changed, s') =
        (git.tip w.branch s ≡ tip_of w.base_commit)
        × (tree : Oid) × IsSnapshot tree s
        × Concludes w tree (others s) (ok changed, s')

    Ends-Concludes :
        (s : S) (tree : Oid) (r : Result Bool × S)
        → git.tip w.branch s ≡ tip_of w.base_commit
        → IsSnapshot tree s
        → Concludes w tree (others s) r
        → Ends s r
    Ends-Concludes s tree (err e, s') at snapshot c = inr c
    Ends-Concludes s tree (ok changed, s') at snapshot c = (at, tree, snapshot, c)

    commit_tree-Ends :
        GitLaws git
        → (s : S) → git.tip w.branch s ≡ tip_of w.base_commit
        → (staging : Staging) → stage_all blob_id write_pack threshold files w.index ≡ ok staging
        → (r : Result (Oid × S)) → git.write_tree staging.index (others s) ≡ r
        → Ends s (commit_tree_of git w message r (others s))
    unfolding commit_tree_of
    commit_tree-Ends laws s at staging ran (err e) wrote = inr (λ b. refl)
    commit_tree-Ends laws s at staging ran (ok (tree, t)) wrote =
        Ends-Concludes s tree _ at
          (record { staging = staging; staged = ran; after = t; tree_written = wrote })
          (commit_changed-Concludes laws w tree (others s) message t (base_tree git w.base_commit t)
            (laws.write_tree-tip staging.index (others s) t tree wrote) refl)

    commit_staged-Ends :
        GitLaws git
        → (s : S) → git.tip w.branch s ≡ tip_of w.base_commit
        → (r : Result Staging) → stage_all blob_id write_pack threshold files w.index ≡ r
        → Ends s (commit_staged git w message r (others s))
    unfolding commit_staged
    commit_staged-Ends laws s at (err e) ran = inr (λ b. refl)
    commit_staged-Ends laws s at (ok staging) ran =
        commit_tree-Ends laws s at staging ran (git.write_tree staging.index (others s)) refl

    current-eq :
        (tip : Lookup) (current : Option Oid) → current_of tip ≡ ok current → tip ≡ tip_of current
    unfolding current_of
    current-eq (found id) none e = cc
    current-eq (found id) (some c) e = cc
    current-eq not_found none e = refl
    current-eq not_found (some c) e = cc
    current-eq (failed m) current e = cc

    commit_current-Ends :
        GitLaws git
        → (s : S) (r : Result (Option Oid)) → current_of (git.tip w.branch s) ≡ r
        → Ends s (commit_current git blob_id write_pack others threshold files w message r s)
    unfolding commit_current
    commit_current-Ends laws s (err e) read = inl (λ b. refl)
    commit_current-Ends laws s (ok current) read =
        elim (Bool-cases (same_oid current w.base_commit)) [
          | inr moved ↦ rw moved (inl (λ b. refl))
          | inl still ↦ rw still (
              commit_staged-Ends laws s
                (current-eq (git.tip w.branch s) current read
                  ∙ ap tip_of (same_oid-eq current w.base_commit still))
                (stage_all blob_id write_pack threshold files w.index) refl)
        ]

    -- Whatever other writers do while the files are staged: a commit that succeeds found the branch
    -- at the prepared base, and wrote the tree of the staged index. If it reports a change, it
    -- found the branch there again when it moved it, in the same step, to a commit of that tree
    -- whose only parent is the base, and moved no other branch; if it reports none, the base has
    -- this tree and no branch has moved. One that fails, for a moved branch or for anything else,
    -- has moved no branch: nobody's commits are lost.
    pub commit_all-Ends :
        GitLaws git
        → (indexed : Bool) (s : S)
        → Ends s (
            commit_all_with_progress git blob_id write_pack others threshold files indexed w message
              s)
    unfolding commit_all_with_progress
    commit_all-Ends laws false s = inl (λ b. refl)
    commit_all-Ends laws true s = commit_current-Ends laws s (current_of (git.tip w.branch s)) refl
