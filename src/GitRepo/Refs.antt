-- ===== src/GitRepo/Refs.antt =====
-- The references and commits of a bare repository, as server/src/storage/git_repo.rs uses them
-- through `git2`, and what `git2` documents of them.
use csaf_trove.Base.{◌≡◌, false, Option, none, some, List, [], ◌∷◌}
use csaf_trove.Base.Text.{Text, text_eq}
use csaf_trove.Base.Map.{Map}
use csaf_trove.Base.Effect.{Result, ok}
use csaf_trove.Storage.TreeDiff.Repository.{Oid, Lookup, found, not_found}

-- `reference_matching`: written, refused with `Modified` or `Exists`, or another error.
pub data Update (S : Type 0) : Type 0 where
  written : (after : S) → Update S
  refused : Update S
  broken : (message : Text) → Update S

pub record Git (S : Type 0) : Type 0 where
  -- `find_reference("HEAD")` and `symbolic_target`.
  pub symbolic_head : S → Result (Option Text)
  -- `find_reference` and `peel_to_commit`.
  pub tip : Text → S → Lookup
  -- The first item of `branches(Local)`: a name, and its commit.
  pub first_branch : S → Result (Option (Result (Text × Result Oid)))
  pub set_head : Text → S → Result S
  -- `find_commit`, `tree`, and `read_tree` into an index.
  pub read_tree : Oid → S → Result (Map Oid)
  pub write_tree : Map Oid → S → Result (Oid × S)
  -- `find_commit` and `tree`.
  pub commit_tree : Oid → S → Result Oid
  pub parents_of : Oid → S → Result (List Oid)
  pub commit : Oid → List Oid → Text → S → Result (Oid × S)
  -- No expected value stands for `Oid::ZERO_SHA1`: the reference must not exist.
  pub reference_matching : Text → Oid → Option Oid → S → Update S

abbrev pub tip_of : Option Oid → Lookup
tip_of none = not_found
tip_of (some id) = found id

abbrev pub parent_list : Option Oid → List Oid
parent_list none = []
parent_list (some id) = id ∷ []

module _ {S : Type 0} (git : Git S) where
  -- All branches are where they were.
  abbrev pub SameTips : S → S → Type 0
  SameTips s s' = (b : Text) → git.tip b s' ≡ git.tip b s

  -- Objects are written beside the references; a reference is compared and set in one step.
  pub record GitLaws : Type 0 where
    pub write_tree-tip :
        (index : Map Oid) (s s' : S) (tree : Oid)
        → git.write_tree index s ≡ ok (tree, s')
        → SameTips s s'
    pub commit-tip :
        (tree : Oid) (parents : List Oid) (message : Text) (s s' : S) (id : Oid)
        → git.commit tree parents message s ≡ ok (id, s')
        → SameTips s s'
    pub commit-stored :
        (tree : Oid) (parents : List Oid) (message : Text) (s s' : S) (id : Oid)
        → git.commit tree parents message s ≡ ok (id, s')
        → (git.commit_tree id s' ≡ ok tree) × (git.parents_of id s' ≡ ok parents)
    pub written-expected :
        (b : Text) (id : Oid) (expected : Option Oid) (s s' : S)
        → git.reference_matching b id expected s ≡ written s'
        → git.tip b s ≡ tip_of expected
    pub written-tip :
        (b : Text) (id : Oid) (expected : Option Oid) (s s' : S)
        → git.reference_matching b id expected s ≡ written s'
        → git.tip b s' ≡ found id
    pub written-others :
        (b : Text) (id : Oid) (expected : Option Oid) (s s' : S)
        → git.reference_matching b id expected s ≡ written s'
        → (other : Text) → text_eq b other ≡ false
        → git.tip other s' ≡ git.tip other s
    pub written-objects :
        (b : Text) (id : Oid) (expected : Option Oid) (s s' : S)
        → git.reference_matching b id expected s ≡ written s'
        → (c : Oid)
        → (git.commit_tree c s' ≡ git.commit_tree c s) × (git.parents_of c s' ≡ git.parents_of c s)
    pub set_head-symbolic :
        (b : Text) (s s' : S)
        → git.set_head b s ≡ ok s'
        → (git.symbolic_head s' ≡ ok (some b)) × SameTips s s'
    pub first_branch-tip :
        (b : Text) (id : Oid) (s : S)
        → git.first_branch s ≡ ok (some (ok (b, ok id)))
        → git.tip b s ≡ found id
