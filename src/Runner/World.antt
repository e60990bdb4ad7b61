-- ===== src/Runner/World.antt =====
-- What a provider job works on: the parts of `AppState` (server/src/main.rs) that it changes, the
-- records of server/src/models and server/src/hooks.rs, and the calls of other components.
use csaf_trove.Base.{ℕ, Bool, true, false, Option, none, List}
use csaf_trove.Base.Text.{Text}
use csaf_trove.Base.Map
use csaf_trove.Base.Map.{Map}
use csaf_trove.Base.Effect.{Result, ok, err}
use csaf_trove.Jobs.{Timestamp, Registry}
use csaf_trove.Jobs.History.{Report, report_all}
use csaf_trove.Processing.Paths.{ProcessingCheckpoint}

-- `SyncState`
pub record SyncState : Type 0 where
  pub domain : Text
  pub last_sync : Option Timestamp
  pub since_token : Option Timestamp
  pub documents_synced : ℕ
  pub documents_validated : ℕ
  pub documents_missing : ℕ
  pub documents_total : ℕ

-- `SyncState::new`
unfoldable pub new_sync_state : Text → SyncState
new_sync_state domain = record {
  domain = domain;
  last_sync = none;
  since_token = none;
  documents_synced = 0;
  documents_validated = 0;
  documents_missing = 0;
  documents_total = 0;
}

-- `Source`
pub record Source : Type 0 where
  pub domain : Text
  pub enabled : Bool
  pub accept_v3_signatures : Bool
  pub retries : Option ℕ
  pub aggregator_include : Option Bool
  pub skip_directories : List Text
  pub note : Option Text
  pub user_agent : Option Text

-- `JobKind`
pub data JobKind : Type 0 where
  sync_job revalidate_job : JobKind

-- `JobFinished`
pub record JobFinished : Type 0 where
  pub domain : Text
  pub kind : JobKind
  pub success : Bool

-- `RetrievalFailure`
pub record RetrievalFailure : Type 0 where
  pub url : Text
  pub error : Text
  pub missing : Bool

-- `SyncResult`; the membership is a `BTreeMap` from feed URLs to advisory URLs.
pub record SyncResult : Type 0 where
  pub membership : Map (List Text)
  pub retrieval_errors : List RetrievalFailure
  pub distribution_errors : List RetrievalFailure
  pub started_at : Timestamp

-- `held` are the domains whose pipeline lock is taken, `finished` the events sent to the hooks.
-- `rest` is everything else: databases, repositories, files, the network and the clock.
pub record World (D : Type 0) : Type 0 where
  pub registry : Registry
  pub held : List Text
  pub sync_states : Map SyncState
  pub checkpoints : Map ProcessingCheckpoint
  pub finished : List JobFinished
  pub rest : D

-- How a call of another component ends: its result, the progress it reported on the way, and
-- whether it set the `summary_dirty` flag of the provider's checkpoint.
pub record Answer (D A : Type 0) : Type 0 where
  pub result : Result A
  pub reports : List Report
  pub dirtied : Bool
  pub rest : D

abbrev pub Call : Type 0 → Type 0 → Type 0
Call D A = D → Answer D A

-- An operation that can fail, and keeps what it has done when it does.
abbrev pub Action : Type 0 → Type 0 → Type 0
Action D A = World D → Result A × World D

-- `UPDATE processing_checkpoint SET summary_dirty = 1`
abbrev pub mark_dirty : Text → Bool → Map ProcessingCheckpoint → Map ProcessingCheckpoint
mark_dirty domain false cs = cs
mark_dirty domain true cs = Map.modify domain (λ c. record c { summary_dirty = true }) cs

module _ {D : Type 0} where
  abbrev pub continue : {A B : Type 0} → (A → Action D B) → Result A × World D → Result B × World D
  continue f (ok a, w) = f a w
  continue f (err e, w) = (err e, w)

  infixl 5 ◌>>=◌ ◌>>◌
  unfoldable pub ◌>>=◌ : {A B : Type 0} → Action D A → (A → Action D B) → Action D B
  ◌>>=◌ m f w = continue f (m w)

  unfoldable pub ◌>>◌ : {A B : Type 0} → Action D A → Action D B → Action D B
  ◌>>◌ m k w = continue (λ _. k) (m w)

  -- What can be read without changing anything.
  unfoldable pub read : {A : Type 0} → (World D → Result A) → Action D A
  read f w = (f w, w)

  unfoldable pub pure : {A : Type 0} → A → Action D A
  unfolding read
  pure a = read (λ w. ok a)

  unfoldable pub branch : {A : Type 0} → Bool → Action D A → Action D A → Action D A
  branch true m k = m
  branch false m k = k

  unfoldable pub when : Bool → Action D Unit → Action D Unit
  unfolding branch pure
  when b m = branch b m (pure tt)

  -- `if let Err(e) = … { warn }`
  abbrev pub forgive : {A : Type 0} → Result A × World D → Result (Unit {0}) × World D
  forgive (r, w) = (ok tt, w)

  unfoldable pub warn_only : {A : Type 0} → Action D A → Action D Unit
  warn_only m w = forgive (m w)

  unfoldable pub call : {A : Type 0} → Text → Call D A → Action D A
  unfolding Map.modify
  call domain c w =
      let answer = c w.rest in
      (
        answer.result,
        record w {
          registry = report_all domain answer.reports w.registry;
          checkpoints = mark_dirty domain answer.dirtied w.checkpoints;
          rest = answer.rest;
        },
      )

  unfoldable pub change_registry : (Registry → Registry) → Action D Unit
  change_registry f w = (ok tt, record w { registry = f w.registry })

-- The calls of a job, with what they are in the source. `domain` comes first in each of them.
pub record Services (D : Type 0) : Type 0 where
  -- `OffsetDateTime::now_utc`
  pub now_utc : D → Timestamp × D
  -- Whether the files of the sync state, and the database of the checkpoint, answer.
  pub access : Text → Call D Unit
  pub maintain_repository : Text → Call D Unit
  pub prepare_worktree : Text → Call D Unit
  -- `Walker::walk` over the provider's distributions: the index is filtered with the token, and
  -- the URLs to retry are kept.
  pub walk :
      Source
      → Option Timestamp
      → List Text
      → Call D (Map (List Text) × List RetrievalFailure × List RetrievalFailure)
  pub commit_snapshot : Text → Call D Unit
  pub persist_provider_metadata : Text → Call D Unit
  pub save_distribution_errors : Text → List RetrievalFailure → Call D Unit
  pub save_distribution_membership : Text → Map (List Text) → Call D Unit
  pub refresh_distribution_health : Text → Call D Unit
  pub retrieval_failures : Text → Call D (List RetrievalFailure)
  pub document_count : Text → Call D ℕ
  pub validator_identity : Source → Result Text
  pub clean_selection : Text → Call D Unit
  pub clean_validation_files : Text → Call D Unit
  pub retrieval_error_urls : Text → Text → Call D (List Text)
  -- `download_dir.join(path).exists()`, or the same of its compressed form.
  pub downloaded : Text → Text → D → Bool
  pub delete_all_documents : Text → Call D Unit
  pub delete_document_urls : Text → List Text → Call D Unit
  pub validate_provider : Source → ℕ → Call D Unit
  pub versions_missing : Text → Call D Bool
  pub record_versions : Text → Option Text → Call D Unit
  pub save_retrieval_errors : Text → List RetrievalFailure → Call D Bool
  pub has_summary : Text → Call D Bool
  pub build_summary : Text → Call D Text
  pub save_summary : Text → Text → Call D Unit
  pub generate_report : Text → Call D Unit
  pub save_sync_run : Text → Timestamp → ℕ → ℕ → Timestamp → Call D Unit
  pub cleanup_worktree : Text → Call D Unit
