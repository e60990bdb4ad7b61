-- ===== src/GitRepo/Staging.antt =====
-- The staging of scratch files by `commit_all_with_progress` (server/src/storage/git_repo.rs). An
-- index is the map from its paths to blobs; what the file system and the object database answer are
-- parameters.
pub mod Lookups
pub mod Packs
pub mod Whole
use csaf_trove.Base.{
  ℕ, suc, ◌+◌, Bool, true, false, ◌&&◌, not, Option, none, some, List, [], ◌∷◌, ◌++◌, leb, length,
  is_some, add_u64, if◌then◌else◌,
}
use csaf_trove.Base.Text.{Text, bytes, text_eq, starts_with}
use csaf_trove.Base.Map
use csaf_trove.Base.Map.{Map}
use csaf_trove.Base.Effect.{Result, ok, err, ◌>>=◌, for_each}
use csaf_trove.Storage.TreeDiff.Repository.{Oid}
use csaf_trove.GitRepo.Scratch.{logical_path, is_advisory, in_metadata, with_added_extension}

-- A directory entry of the walk without `.git`: its path below the worktree, what `scratch::read`
-- or the staging of the plain file reads, and the length in its metadata.
pub record Entry : Type 0 where
  pub relative : Text
  pub is_file : Bool
  pub content : Result Text
  pub size : Result ℕ

pub record Worktree : Type 0 where
  pub walk : List (Result Entry)
  pub exists : Text → Bool
  -- Whether `metadata/keys` is a directory.
  pub has_keys : Bool

-- The variables of the loop, the batches in the object database, and the reported progress.
pub record Staging : Type 0 where
  pub index : Map Oid
  pub staged : ℕ
  pub buffered_bytes : ℕ
  pub buffered_objects : List Oid
  pub packs : List (List Oid)
  pub reports : List (ℕ × ℕ)

unfoldable pub is_key : Text → Bool
unfolding starts_with
is_key path = starts_with path (bytes "metadata/keys/")

-- Downloaded key sets replace the old set. The source refuses a key whose path is not UTF-8; here
-- paths are texts already.
unfoldable pub remove_keys : Map Oid → Map Oid
remove_keys [] = []
remove_keys ((path, id) ∷ index) =
    let rest = remove_keys index in if is_key path then rest else (path, id) ∷ rest

abbrev pub is_counted : Result Entry → Bool
is_counted (err e) = false
is_counted (ok entry) = entry.is_file

-- `total`: entries that cannot be read do not count.
abbrev pub count_files : List (Result Entry) → ℕ
count_files [] = 0
count_files (e ∷ es) = if is_counted e then suc (count_files es) else count_files es

abbrev pub suffixes : List Text
suffixes = bytes "asc" ∷ bytes "sha256" ∷ bytes "sha512" ∷ []

-- A sidecar that was not downloaded with its advisory is stale.
unfoldable pub drop_sidecar : (Text → Bool) → Text → Map Oid → Map Oid
unfolding Map.get Map.remove
drop_sidecar exists sidecar index =
    if not (exists sidecar) && is_some (Map.get sidecar index)
    then Map.remove sidecar index
    else index

unfoldable pub drop_sidecars : (Text → Bool) → Text → List Text → Map Oid → Map Oid
drop_sidecars exists logical [] index = index
drop_sidecars exists logical (suffix ∷ rest) index =
    drop_sidecars exists logical rest
      (drop_sidecar exists (with_added_extension logical suffix) index)

unfoldable pub without_stale : (Text → Bool) → Text → Map Oid → Map Oid
without_stale exists logical index =
    if is_advisory logical && not (in_metadata logical)
    then drop_sidecars exists logical suffixes index
    else index

abbrev pub out_of_place : Text
out_of_place = bytes "Both plain and compressed scratch files exist"

abbrev pub missing_entry : Text
missing_entry = bytes "Missing staged index entry"

abbrev pub ensure : Bool → Text → Result (Unit {0})
ensure true e = ok tt
ensure false e = err e

abbrev pub report : ℕ → Staging → Staging
report total s = record s {
  staged = suc s.staged;
  reports = s.reports ++ ((suc s.staged, total) ∷ []);
}

abbrev pub emptied : Staging → Staging
emptied s = record s { buffered_objects = []; buffered_bytes = 0 }

abbrev pub fresh : Map Oid → Staging
fresh index = record {
  index = index;
  staged = 0;
  buffered_bytes = 0;
  buffered_objects = [];
  packs = [];
  reports = [];
}

-- `blob_id` names a content, `write_pack` persists a batch (`flush_mempack` but for the empty one).
module _ (blob_id : Text → Oid) (write_pack : List Oid → Result (Unit {0})) where
  unfoldable pub flush_objects : List Oid → Staging → Result Staging
  flush_objects [] s = ok s
  flush_objects (id ∷ ids) s =
      write_pack (id ∷ ids) >>= λ _. ok (record s { packs = s.packs ++ ((id ∷ ids) ∷ []) })

  unfoldable pub flush_mempack : Staging → Result Staging
  unfolding flush_objects
  flush_mempack s = flush_objects s.buffered_objects s

  -- The two ways into the index: a compressed file under its original path, and a plain one.
  unfoldable pub add_entry : Worktree → Text → Entry → Staging → Result Staging
  unfolding Map.insert
  add_entry w logical entry s =
      if text_eq logical entry.relative
      then (do
        size ← entry.size
        content ← entry.content
        ok (record s {
          buffered_bytes = add_u64 s.buffered_bytes size;
          index = Map.insert entry.relative (blob_id content) s.index;
        }))
      else (do
        alone ← ensure (not (w.exists logical)) out_of_place
        content ← entry.content
        ok (record s {
          buffered_bytes = add_u64 s.buffered_bytes (length content);
          index = Map.insert logical (blob_id content) s.index;
        }))

  unfoldable pub push_object : Option Oid → Staging → Result Staging
  push_object none s = err missing_entry
  push_object (some id) s = ok (record s { buffered_objects = s.buffered_objects ++ (id ∷ []) })

  -- A full buffer is written to disk.
  unfoldable pub limit_buffer : ℕ → Staging → Result Staging
  unfolding flush_mempack
  limit_buffer threshold s =
      if leb threshold s.buffered_bytes
      then (flush_mempack s >>= λ flushed. ok (emptied flushed))
      else ok s

  unfoldable pub stage_file : ℕ → ℕ → Worktree → Entry → Staging → Result Staging
  unfolding add_entry push_object limit_buffer
  stage_file threshold total w entry s =
      let logical = logical_path entry.relative in
      do
        added ←
            add_entry w logical entry (record s { index = without_stale w.exists logical s.index })
        pushed ← push_object (Map.get logical added.index) added
        limit_buffer threshold (report total pushed)

  unfoldable pub stage_entry : ℕ → ℕ → Worktree → Result Entry → Staging → Result Staging
  unfolding stage_file
  stage_entry threshold total w (err e) s = err e
  stage_entry threshold total w (ok entry) s =
      if entry.is_file then stage_file threshold total w entry s else ok s

  -- The block that fills the index.
  unfoldable pub stage_all : ℕ → Worktree → Map Oid → Result Staging
  unfolding stage_entry for_each flush_mempack remove_keys
  stage_all threshold w index =
      let kept = if w.has_keys then remove_keys index else index in
      for_each (stage_entry threshold (count_files w.walk) w) w.walk (fresh kept) >>= flush_mempack
