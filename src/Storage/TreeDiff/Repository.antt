-- ===== src/Storage/TreeDiff/Repository.antt =====
-- What the server reads of a bare repository through `git2`. Object identities are their
-- hexadecimal digits.
use csaf_trove.Base.{ℕ, Option, List}
use csaf_trove.Base.Text.{Text}
use csaf_trove.Base.Effect.{Result}

abbrev pub Oid : Type 0
Oid = Text

-- `TreeEntry`: no name if it is not UTF-8, and whether its kind is `ObjectType::Tree`.
pub data EntryKind : Type 0 where
  tree_kind blob_kind other_kind : EntryKind

pub record TreeEntry : Type 0 where
  pub name : Option Text
  pub kind : EntryKind
  pub id : Oid
  pub filemode : ℕ

pub record Tree : Type 0 where
  pub id : Oid
  pub entries : List TreeEntry

-- `TreeDelta`. A delta of `git2` has the same parts, with paths relative to the compared trees.
pub record TreeDelta : Type 0 where
  pub status : ℕ
  pub old_path : Option Text
  pub new_path : Option Text
  pub new_id : Oid

pub record Commit : Type 0 where
  pub id : Oid
  pub parents : List Oid
  pub tree : Tree

-- The outcome of `Tree::get_path`: its entry, `ErrorCode::NotFound`, or another error.
pub data Lookup : Type 0 where
  found : Oid → Lookup
  not_found : Lookup
  failed : Text → Lookup

pub record Repository : Type 0 where
  -- `Repository::open_bare`, `head` and `peel_to_commit`.
  pub head : Result Commit
  pub find_commit : Oid → Result Commit
  pub find_tree : Oid → Result Tree
  pub find_blob : Oid → Result Text
  pub get_path : Tree → Text → Lookup
  -- `diff_tree_to_tree`
  pub diff_tree_to_tree : Option Tree → Option Tree → Result (List TreeDelta)
  -- `Oid::from_str`
  pub parse_oid : Text → Option Oid
