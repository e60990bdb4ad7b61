-- ===== src/GitRepo/Snapshots.antt =====
-- `resolve_branch`, `prepare_worktree` and `commit_all_with_progress` of
-- server/src/storage/git_repo.rs. What other writers do between the check of the branch and the
-- commit is a parameter.
pub mod Publish
use csaf_trove.Base.{ℕ, Bool, true, false, Option, none, some, List, [], ◌∷◌, if◌then◌else◌}
use csaf_trove.Base.Text.{Text, bytes, text_eq, starts_with}
use csaf_trove.Base.Map.{Map}
use csaf_trove.Base.Effect.{Result, ok, err, ◌>>=◌}
use csaf_trove.Storage.TreeDiff.Repository.{Oid, Lookup, found, not_found, failed}
use csaf_trove.Storage.TreeDiff.Compare.{same_oid}
use csaf_trove.GitRepo.Staging.{Worktree, Staging, stage_all}
use csaf_trove.GitRepo.Refs.{Git, Update, written, refused, broken, parent_list}

-- `WorktreeError`
abbrev pub invalid_head : Text
invalid_head = bytes "Provider repository HEAD must point to a local branch"

abbrev pub branch_changed : Text
branch_changed = bytes "Provider branch changed during sync; refusing to overwrite it"

abbrev pub missing_index : Text
missing_index = bytes "Missing prepared worktree index"

-- `PreparedWorktree`, with the entries of its private index.
pub record PreparedWorktree : Type 0 where
  pub branch : Text
  pub base_commit : Option Oid
  pub index : Map Oid

-- `filter(|name| name.starts_with("refs/heads/"))`
unfoldable pub local_branch : Option Text → Result Text
unfolding starts_with
local_branch none = err invalid_head
local_branch (some name) =
    if starts_with name (bytes "refs/heads/") then ok name else err invalid_head

-- The tip as `commit_all_with_progress` reads it.
unfoldable pub current_of : Lookup → Result (Option Oid)
current_of (found id) = ok (some id)
current_of not_found = ok none
current_of (failed e) = err e

module _ {S : Type 0} (git : Git S) where
  -- HEAD is repaired with the first local branch.
  unfoldable pub fall_back :
      Text → Option (Result (Text × Result Oid)) → S → Result ((Text × Option Oid) × S)
  fall_back branch none s = ok ((branch, none), s)
  fall_back branch (some entry) s = do
    (name, peeled) ← entry
    id ← peeled
    s' ← git.set_head name s
    ok ((name, some id), s')

  unfoldable pub resolve_tip : Text → Lookup → S → Result ((Text × Option Oid) × S)
  unfolding fall_back
  resolve_tip branch (found id) s = ok ((branch, some id), s)
  resolve_tip branch not_found s = git.first_branch s >>= λ first. fall_back branch first s
  resolve_tip branch (failed e) s = err e

  unfoldable pub resolve_branch : S → Result ((Text × Option Oid) × S)
  unfolding local_branch resolve_tip
  resolve_branch s = do
    head ← git.symbolic_head s
    branch ← local_branch head
    resolve_tip branch (git.tip branch s) s

  -- The index of a branch without commits is empty.
  unfoldable pub initial_index : Option Oid → S → Result (Map Oid)
  initial_index none s = ok []
  initial_index (some id) s = git.read_tree id s

  unfoldable pub prepare_worktree : S → Result (PreparedWorktree × S)
  unfolding resolve_branch initial_index
  prepare_worktree s = do
    ((branch, base_commit), s') ← resolve_branch s
    index ← initial_index base_commit s'
    ok (record { branch = branch; base_commit = base_commit; index = index }, s')

  -- What the update of the branch makes of the commit.
  unfoldable pub finish_update : Update S → S → Result Bool × S
  finish_update (written s') s = (ok true, s')
  finish_update refused s = (err branch_changed, s)
  finish_update (broken e) s = (err e, s)

  unfoldable pub publish_commit : Text → Option Oid → Result (Oid × S) → S → Result Bool × S
  unfolding finish_update
  publish_commit branch base (err e) s = (err e, s)
  publish_commit branch base (ok (id, s')) s =
      finish_update (git.reference_matching branch id base s') s'

  -- A tree that is the parent's is not committed.
  unfoldable pub commit_changed :
      PreparedWorktree → Text → Oid → Result (Option Oid) → S → Result Bool × S
  unfolding publish_commit same_oid
  commit_changed w message tree (err e) s = (err e, s)
  commit_changed w message tree (ok parent) s =
      if same_oid parent (some tree)
      then (ok false, s)
      else publish_commit w.branch w.base_commit
          (git.commit tree (parent_list w.base_commit) message s) s

  -- The tree of the parent, if there is one.
  unfoldable pub base_tree : Option Oid → S → Result (Option Oid)
  base_tree none s = ok none
  base_tree (some id) s = git.commit_tree id s >>= λ tree. ok (some tree)

  unfoldable pub commit_tree_of : PreparedWorktree → Text → Result (Oid × S) → S → Result Bool × S
  unfolding commit_changed base_tree
  commit_tree_of w message (err e) s = (err e, s)
  commit_tree_of w message (ok (tree, s')) s =
      commit_changed w message tree (base_tree w.base_commit s') s'

  unfoldable pub commit_staged : PreparedWorktree → Text → Result Staging → S → Result Bool × S
  unfolding commit_tree_of
  commit_staged w message (err e) s = (err e, s)
  commit_staged w message (ok staging) s =
      commit_tree_of w message (git.write_tree staging.index s) s

  module _ (blob_id : Text → Oid) (write_pack : List Oid → Result (Unit {0})) (others : S → S) where
    -- `others` is what the repository goes through while the files are staged.
    unfoldable pub commit_current :
        ℕ → Worktree → PreparedWorktree → Text → Result (Option Oid) → S → Result Bool × S
    unfolding commit_staged same_oid
    commit_current threshold files w message (err e) s = (err e, s)
    commit_current threshold files w message (ok current) s =
        if same_oid current w.base_commit
        then commit_staged w message (stage_all blob_id write_pack threshold files w.index)
            (others s)
        else (err branch_changed, s)

    -- Whether the index is still there, and the commit.
    unfoldable pub commit_all_with_progress :
        ℕ → Worktree → Bool → PreparedWorktree → Text → S → Result Bool × S
    unfolding commit_current current_of
    commit_all_with_progress threshold files false w message s = (err missing_index, s)
    commit_all_with_progress threshold files true w message s =
        commit_current threshold files w message (current_of (git.tip w.branch s)) s
