-- ===== src/Examples/GitRepo.antt =====
-- The history and the snapshots of a small repository.
use csaf_trove.Base.{◌≡◌, refl, none, some, List, [], ◌∷◌, ◌++◌, arith, length}
use csaf_trove.Base.Text.{bytes, text_eq, starts_with, strip_suffix, ends_with}
use csaf_trove.Base.Int.{pos}
use csaf_trove.Base.Effect.{Result, ok, for_each}
use csaf_trove.Storage.TreeDiff.Repository.{TreeDelta}
use csaf_trove.Storage.TreeDiff.Compare.{same_oid, changed_directories, native_diff, compare, emit}
use csaf_trove.Processing.Paths.{advisory_path}
use csaf_trove.GitRepo.Versions.{
  CommitVersions, History, first_parent, parse_since, collect_versions,
}
use csaf_trove.GitRepo.Chain.{Step, IsChain, emitted, collect_versions-Chain}
use csaf_trove.Examples.Data.{advisory, sidecar, repository, old_commit, new_commit}

-- Both commits write the advisory and its sidecar.
abbrev written : List TreeDelta
written =
    record { status = 3; old_path = some advisory; new_path = some advisory; new_id = bytes "a1" }
    ∷ record { status = 1; old_path = some sidecar; new_path = some sidecar; new_id = bytes "s1" }
    ∷ []

abbrev pub history : History
history = record {
  repo = record repository { diff_tree_to_tree = λ old new. ok written };
  head = some (ok new_commit);
  time = λ id. pos 7;
  message = λ id. some id;
  envelope = λ blob. none;
}

abbrev collect_all : CommitVersions → List CommitVersions → Result (List CommitVersions)
collect_all v vs = ok (vs ++ (v ∷ []))

abbrev pub chain : List Step
chain = (some old_commit, written) ∷ (none, written) ∷ []

pub is_chain : IsChain history.repo 2 none new_commit chain
unfolding text_eq compare native_diff emit changed_directories same_oid for_each first_parent
is_chain = (refl, refl, refl, refl, refl, (refl, refl, refl, refl))

collect_versions-Chain_example :
    collect_versions 2 history collect_all 2 none []
    ≡ for_each collect_all (emitted history (λ id. id) new_commit chain) []
unfolding parse_since
collect_versions-Chain_example =
    collect_versions-Chain 2 history (λ id. id) collect_all (λ id. refl) 2 none none new_commit
      chain [] refl refl is_chain (omega arith)

-- One version from each commit, of the advisory alone.
both-commits : length (emitted history (λ id. id) new_commit chain) ≡ 2
unfolding emitted advisory_path starts_with strip_suffix ends_with text_eq
both-commits = refl
