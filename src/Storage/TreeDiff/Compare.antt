-- ===== src/Storage/TreeDiff/Compare.antt =====
-- `compare` and `native_diff` of `TreeDiffCache`. The count `diffs_attempted` goes through them
-- with the state of the callback.
use csaf_trove.Base.{
  ℕ, zero, suc, Bool, true, false, ◌&&◌, not, Option, none, some, List, [], ◌∷◌, ◌++◌, ◌==◌,
  if◌then◌else◌,
}
use csaf_trove.Base.Text.{Text, bytes, text_eq}
use csaf_trove.Base.Effect.{Result, ok, err, ◌>>=◌, for_each}
use csaf_trove.Storage.PathSet.{insert_row}
use csaf_trove.Storage.TreeDiff.Repository.{
  Oid, EntryKind, tree_kind, TreeEntry, Tree, TreeDelta, Repository,
}

-- `==` of `Option<Oid>`
unfoldable pub same_oid : Option Oid → Option Oid → Bool
same_oid none none = true
same_oid none (some b) = false
same_oid (some a) none = false
same_oid (some a) (some b) = text_eq a b

abbrev pub tree_id : Option Tree → Option Oid
tree_id none = none
tree_id (some t) = some t.id

abbrev pub tree_entries : Option Tree → List TreeEntry
tree_entries none = []
tree_entries (some t) = t.entries

abbrev pub is_tree : EntryKind → Bool
is_tree tree_kind = true
is_tree _ = false

abbrev has_name : Text → Option Text → Bool
has_name name none = false
has_name name (some n) = text_eq n name

abbrev find_name : Text → List TreeEntry → Option TreeEntry
find_name name [] = none
find_name name (e ∷ es) = if has_name name e.name then some e else find_name name es

-- `Tree::get_name`
unfoldable pub get_name : Option Tree → Text → Option TreeEntry
get_name tree name = find_name name (tree_entries tree)

-- Whether the identities, object and file mode, of two entries agree.
unfoldable pub same_identity : Option TreeEntry → Option TreeEntry → Bool
same_identity none none = true
same_identity none (some b) = false
same_identity (some a) none = false
same_identity (some a) (some b) = text_eq a.id b.id && (a.filemode == b.filemode)

abbrev absent_or_tree : Option TreeEntry → Bool
absent_or_tree none = true
absent_or_tree (some e) = is_tree e.kind

-- The loop over the entries of both trees. `none` means that the trees are left to the native
-- diff: a file, a name that is not UTF-8, or a change between a file and a directory.
unfoldable pub changed_directories :
    Option Tree → Option Tree → List TreeEntry → List Text → Option (List Text)
unfolding get_name same_identity insert_row
changed_directories old new [] directories = some directories
changed_directories old new (entry ∷ entries) directories =
    if not (is_tree entry.kind) then none else elim entry.name [
      | none ↦ none
      | some name ↦
          let before = get_name old name in
          let after = get_name new name in
          let skipped = changed_directories old new entries directories in
          let added = changed_directories old new entries (insert_row name directories) in
          if same_identity before after
          then skipped
          else if absent_or_tree before && absent_or_tree after
          then added
          else none
    ]

-- `format!("{prefix}{path}")`
abbrev pub under : Text → Option Text → Option Text
under prefix none = none
under prefix (some path) = some (prefix ++ path)

abbrev pub rooted : Text → TreeDelta → TreeDelta
rooted prefix d = record d {
  old_path = under prefix d.old_path;
  new_path = under prefix d.new_path;
}

-- `as_ref().map(|entry| repo.find_tree(entry.id())).transpose()`
unfoldable pub subtree : Repository → Option TreeEntry → Result (Option Tree)
subtree repo none = ok none
subtree repo (some e) = repo.find_tree e.id >>= λ t. ok (some t)

-- Not an error of the program: the levels that a run of the model is given are used up.
abbrev pub out_of_levels : Text
out_of_levels = bytes "out of levels"

module _ {ℓ} {S : Type ℓ} (repo : Repository) (deltas : TreeDelta → S → Result S) where
  -- The state of the callback, and `diffs_attempted`.
  unfoldable pub emit : Text → TreeDelta → S × ℕ → Result (S × ℕ)
  emit prefix d (s, attempts) = deltas (rooted prefix d) s >>= λ s'. ok (s', attempts)

  unfoldable pub native_diff : Option Tree → Option Tree → Text → S × ℕ → Result (S × ℕ)
  unfolding emit for_each
  native_diff old new prefix (s, attempts) =
      repo.diff_tree_to_tree old new >>= λ ds. for_each (emit prefix) ds (s, suc attempts)

  -- One round of the loop over the changed directories; `go` is the recursive call.
  unfoldable pub descend :
      (Option Tree → Option Tree → Text → S × ℕ → Result (S × ℕ))
      → Option Tree
      → Option Tree
      → Text
      → Text
      → S × ℕ
      → Result (S × ℕ)
  unfolding subtree get_name
  descend go old new prefix name s = do
    before ← subtree repo (get_name old name)
    after ← subtree repo (get_name new name)
    go before after (prefix ++ (name ++ (b'/' ∷ []))) s

  -- `compare`, by the levels of directories that are left.
  unfoldable pub compare : ℕ → Option Tree → Option Tree → Text → S × ℕ → Result (S × ℕ)
  unfolding native_diff descend changed_directories same_oid for_each
  compare zero old new prefix s =
      if same_oid (tree_id old) (tree_id new) then ok s else err out_of_levels
  compare (suc fuel) old new prefix s =
      if same_oid (tree_id old) (tree_id new)
      then ok s
      else elim (changed_directories old new (tree_entries old ++ tree_entries new) []) [
        | none ↦ native_diff old new prefix s
        | some directories ↦ for_each (descend (compare fuel) old new prefix) directories s
      ]
