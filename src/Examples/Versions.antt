-- ===== src/Examples/Versions.antt =====
-- The versions that a history of two commits has of one document.
use csaf_trove.Base.{ℕ, ◌≡◌, refl, ap, ◌∙◌, none, [], ◌∷◌, true, arith, inl}
use csaf_trove.Base.Text.{Text, bytes, text_eq, text_lt, starts_with, strip_suffix, ends_with}
use csaf_trove.Base.Int.{pos}
use csaf_trove.Base.Effect.{Result, ok, ◌>>=◌, for_each}
use csaf_trove.Processing.Paths.{advisory_path, path_url}
use csaf_trove.GitRepo.Versions.{CommitVersions, parse_since, collect_versions}
use csaf_trove.GitRepo.Chain.{emitted, collect_versions-Chain}
use csaf_trove.Storage.Versions.{
  VersionRow, VersionTables, Recording, record_commit, start_recording, finish_recording,
  record_versions,
}
use csaf_trove.Storage.Versions.Counts.{IsCounted}
use csaf_trove.Storage.Versions.Refreshed.{record_versions-IsCounted}
use csaf_trove.Examples.Data.{advisory, new_commit}
use csaf_trove.Examples.Documents.{a_row}
use csaf_trove.Examples.GitRepo.{history, chain, is_chain}

abbrev url : Text
unfolding path_url
url = path_url advisory

abbrev before : VersionTables
before = record { documents = a_row 1 (bytes "A") url ∷ []; versions = []; next_id = 1 }

abbrev record_one : CommitVersions → Recording → Result Recording
record_one commit r = ok (record_commit commit r)

collected :
    collect_versions 2 history record_one 2 none (start_recording none before)
    ≡ for_each record_one
        (emitted history (λ id. id) new_commit chain)
        (start_recording none before)
unfolding parse_since
collected =
    collect_versions-Chain 2 history (λ id. id) record_one (λ id. refl) 2 none none new_commit chain
      (start_recording none before) refl refl is_chain (omega arith)

abbrev version : ℕ → Text → VersionRow
version id commit = record {
  id = id;
  url = url;
  commit_id = commit;
  timestamp = pos 7;
  message = commit;
  blob_id = bytes "a1";
  tracking = record { status = none; version = none; current_release_date = none };
}

abbrev recorded : VersionTables
recorded = record {
  documents = record (a_row 1 (bytes "A") url) { version_count = 2 } ∷ [];
  versions = version 1 (bytes "c1") ∷ version 2 (bytes "c2") ∷ [];
  next_id = 3;
}

records : record_versions 2 history 2 true none before ≡ ok recorded
unfolding record_versions emitted advisory_path starts_with strip_suffix ends_with text_eq text_lt
    path_url
records =
    ap (λ (r : Result Recording). r >>= λ end. ok (finish_recording none end)) collected ∙ refl

record_versions-IsCounted_example : IsCounted recorded
record_versions-IsCounted_example =
    record_versions-IsCounted 2 history 2 true none before recorded tt (inl (refl, refl)) records
