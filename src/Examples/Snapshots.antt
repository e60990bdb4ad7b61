-- ===== src/Examples/Snapshots.antt =====
-- A download of an advisory without its old signature, staged and committed.
use csaf_trove.Base.{
  ℕ, ◌≡◌, refl, Bool, true, false, Option, none, some, List, [], ◌∷◌, ◌++◌, length, if◌then◌else◌,
}
use csaf_trove.Base.Text.{Text, bytes, text_eq, ends_with, strip_suffix}
use csaf_trove.Base.Map
use csaf_trove.Base.Map.{Map}
use csaf_trove.Base.Effect.{Result, ok, err}
use csaf_trove.Storage.TreeDiff.Repository.{Oid}
use csaf_trove.GitRepo.Scratch.{logical_path, written_path}
use csaf_trove.GitRepo.Scratch.Names.{logical_path-written_path}
use csaf_trove.GitRepo.Staging.{Entry, Worktree, Staging, stage_all, stage_entry, stage_file}
use csaf_trove.GitRepo.Staging.Whole.{IsComplete, staged_files, stage_all-IsComplete}
use csaf_trove.GitRepo.Snapshots.{PreparedWorktree, commit_all_with_progress}
use csaf_trove.GitRepo.Snapshots.Publish.{Ends, commit_all-Ends}
use csaf_trove.Examples.Refs.{Memory, memory, memory_laws}

abbrev document : Text
document = bytes "example.com/a.json"

logical_path-written_path_example : logical_path (written_path document) ≡ document
unfolding ends_with strip_suffix text_eq
logical_path-written_path_example = logical_path-written_path document refl

abbrev files : Worktree
files = record {
  walk =
      ok (record {
        relative = bytes "example.com/a.json.zst";
        is_file = true;
        content = ok (bytes "new");
        size = ok 9;
      })
      ∷ ok
          (record { relative = bytes "metadata"; is_file = false; content = err []; size = err [] })
      ∷ [];
  exists = λ p. text_eq p (bytes "example.com/a.json.zst");
  has_keys = false;
}

abbrev write_pack : List Oid → Result (Unit {0})
write_pack ids = ok tt

abbrev prepared : PreparedWorktree
prepared = record {
  branch = bytes "refs/heads/main";
  base_commit = some (bytes "c1");
  index =
      (document, bytes "old")
      ∷ (bytes "example.com/a.json.asc", bytes "sig")
      ∷ (bytes "b", bytes "b")
      ∷ [];
}

abbrev staging : Staging
staging = record {
  index = (document, bytes "new") ∷ (bytes "b", bytes "b") ∷ [];
  staged = 1;
  buffered_bytes = 0;
  buffered_objects = [];
  packs = (bytes "new" ∷ []) ∷ [];
  reports = (1, 1) ∷ [];
}

staged : stage_all (λ text. text) write_pack 2 files prepared.index ≡ ok staging
unfolding stage_all stage_file csaf_trove.GitRepo.Staging.without_stale
    csaf_trove.GitRepo.Staging.drop_sidecars csaf_trove.GitRepo.Staging.drop_sidecar
    csaf_trove.GitRepo.Scratch.logical_path csaf_trove.GitRepo.Scratch.with_added_extension
    csaf_trove.GitRepo.Scratch.is_advisory csaf_trove.GitRepo.Scratch.in_metadata
    csaf_trove.Base.Map.get csaf_trove.Base.Map.insert csaf_trove.Base.Map.remove text_eq
    csaf_trove.Base.add_u64
staged = refl

stage_all-IsComplete_example :
    IsComplete files (staged_files (λ text. text) files.walk) prepared.index staging
stage_all-IsComplete_example =
    stage_all-IsComplete (λ text. text) write_pack 2 files prepared.index staging staged

abbrev start : Memory
start = record {
  tips = (bytes "refs/heads/main", bytes "c1") ∷ [];
  commits = (bytes "c1", record { tree = bytes "t1"; parents = [] }) ∷ [];
  head = bytes "refs/heads/main";
}

-- Another writer moves the branch while the files are staged.
abbrev competing : Memory → Memory
competing s = record s { tips = (bytes "refs/heads/main", bytes "c9") ∷ [] }

commit_all-Ends_example :
    Ends memory
      (λ text. text)
      write_pack
      competing
      2
      files
      prepared
      (bytes "c2")
      start
      (commit_all_with_progress memory
        (λ text. text)
        write_pack
        competing
        2
        files
        true
        prepared
        (bytes "c2")
        start)
commit_all-Ends_example =
    commit_all-Ends memory (λ text. text) write_pack competing 2 files prepared (bytes "c2")
      memory_laws true start
