-- ===== src/Runner/Pipeline.antt =====
-- `run_pipeline`, `run_revalidation`, `persist_job_counts` and `run_job` of
-- server/src/scheduler/runner.rs, with the state of a sync of server/src/pipeline/sync.rs.
pub mod Stays
pub mod Tokens
pub mod Locks
pub mod Finish
use csaf_trove.Base.{
  ℕ, zero, suc, ◌+◌, Bool, true, false, ◌||◌, not, Option, none, some, List, [], ◌∷◌, ◌++◌, map,
  length, retain, ◌==◌, is_some, is_some, saturating_sub, add_u64, if◌then◌else◌, any,
}
use csaf_trove.Base.Text.{Text, text_eq}
use csaf_trove.Base.Map
use csaf_trove.Base.Map.{Map}
use csaf_trove.Base.Effect.{Result, ok, err, is_ok}
use csaf_trove.Jobs.{
  PipelinePhase, JobPhase, JobStatus, Registry, Timestamp, update_job, maintenance, checkout,
  discover, commit, running, completed, failed, complete_phase,
}
use csaf_trove.Runner.World.{
  World, Action, Source, SyncState, SyncResult, RetrievalFailure, JobKind, JobFinished, sync_job,
  revalidate_job, new_sync_state, call, continue, ◌>>=◌, ◌>>◌, pure, read, branch, when, warn_only,
  change_registry,
}
use csaf_trove.Runner.Snapshot.{Inputs, clock, enter, edit_job, process_snapshot}

-- `SyncResult::missing_count`
unfoldable pub missing_count : SyncResult → ℕ
missing_count result = length (retain (λ f. f.missing) result.retrieval_errors)

module _ {D : Type 0} (inputs : Inputs D) where
  -- `Storage::load_sync_state`
  abbrev pub or_new : Text → Option SyncState → SyncState
  unfolding new_sync_state
  or_new domain none = new_sync_state domain
  or_new domain (some s) = s

  unfoldable pub load_sync_state : Text → Action D SyncState
  load_sync_state domain =
      call domain (inputs.services.access domain)
      >> read (λ w. ok (or_new domain (Map.get domain w.sync_states)))

  unfoldable pub store_sync_state : SyncState → Action D Unit
  store_sync_state s w = (ok tt, record w { sync_states = Map.insert s.domain s w.sync_states })

  -- `Storage::save_sync_state`
  unfoldable pub save_sync_state : Text → SyncState → Action D Unit
  save_sync_state domain s = call domain (inputs.services.access domain) >> store_sync_state s

  -- An empty database clears the token, so that everything is fetched again.
  unfoldable pub effective_token : Text → SyncState → Action D (Option Timestamp)
  effective_token domain s =
      branch (is_some s.since_token)
        (call domain (inputs.services.document_count domain) >>= λ count.
          pure (if count == 0 then none else s.since_token))
        (pure none)

  -- The URLs that are fetched again whatever their age; only with a token.
  unfoldable pub urls_to_retry : Text → Option Timestamp → Action D (List Text)
  urls_to_retry domain token =
      branch (is_some token)
        (call domain (inputs.services.retrieval_failures domain) >>= λ failures.
          pure (map (λ f. f.url) failures))
        (pure [])

  -- `sync_provider`
  unfoldable pub sync_provider : Source → Action D SyncResult
  sync_provider source = do
    started_at ← clock inputs
    state ← load_sync_state source.domain
    token ← effective_token source.domain state
    retry ← urls_to_retry source.domain token
    walked ← call source.domain (inputs.services.walk source token retry)
    pure (record {
      membership = walked.0;
      retrieval_errors = walked.1;
      distribution_errors = walked.2;
      started_at = started_at;
    })

  -- The token advances at the very end.
  unfoldable pub advance_token : Text → Timestamp → Action D Unit
  advance_token domain started_at = do
    state ← load_sync_state domain
    now ← clock inputs
    save_sync_state domain (record state { last_sync = some now; since_token = some started_at })

  -- The inner block of `run_pipeline` behind `sync_provider`.
  unfoldable pub finish_sync : Source → SyncResult → Action D Unit
  finish_sync source result = do
    edit_job inputs source.domain (λ job. record job { documents_missing = missing_count result })
    enter inputs source.domain commit
    call source.domain (inputs.services.commit_snapshot source.domain)
    warn_only (call source.domain (inputs.services.persist_provider_metadata source.domain))
    call source.domain
        (inputs.services.save_distribution_errors source.domain result.distribution_errors)
    process_snapshot inputs source false result.retrieval_errors
    call source.domain
        (inputs.services.save_distribution_membership source.domain result.membership)
    call source.domain (inputs.services.refresh_distribution_health source.domain)
    advance_token source.domain result.started_at

  -- The inner block of `run_pipeline`.
  unfoldable pub pipeline_steps : Source → Action D Unit
  pipeline_steps source = do
    warn_only (call source.domain (inputs.services.maintain_repository source.domain))
    enter inputs source.domain checkout
    call source.domain (inputs.services.prepare_worktree source.domain)
    enter inputs source.domain discover
    result ← sync_provider source
    finish_sync source result

  -- What runs after a block, on success and on failure; its own failure is only logged.
  abbrev pub finally : Action D Unit → Result (Unit {0}) × World D → Result (Unit {0}) × World D
  unfolding warn_only
  finally m (r, w) = (r, (warn_only m w).1)

  unfoldable pub cleanup_worktree : Text → Action D Unit
  cleanup_worktree domain = call domain (inputs.services.cleanup_worktree domain)

  unfoldable pub run_pipeline : Source → Action D Unit
  unfolding warn_only
  run_pipeline source w = finally (cleanup_worktree source.domain) (pipeline_steps source w)

  unfoldable pub process_and_clean : Source → List RetrievalFailure → Action D Unit
  unfolding warn_only
  process_and_clean source failures w =
      finally (cleanup_worktree source.domain) (process_snapshot inputs source true failures w)

  unfoldable pub run_revalidation : Source → Action D Unit
  run_revalidation source = do
    failures ← call source.domain (inputs.services.retrieval_failures source.domain)
    process_and_clean source failures
    call source.domain (inputs.services.refresh_distribution_health source.domain)

  abbrev kind_phase : JobKind → PipelinePhase
  kind_phase sync_job = maintenance
  kind_phase revalidate_job = checkout

  -- The job as it starts.
  unfoldable pub started_job : JobKind → Timestamp → Option Timestamp → JobStatus
  started_job kind now last_completed = record {
    status = running;
    started_at = now;
    completed_at = none;
    phase = some (kind_phase kind);
    documents_synced = 0;
    documents_validated = 0;
    documents_missing = 0;
    documents_total = 0;
    distributions_total = 0;
    distribution_index = 0;
    distribution_documents_current = 0;
    distribution_documents_total = 0;
    phase_current = 0;
    phase_total = 0;
    error = none;
    completed_phases = [];
    last_completed_at = last_completed;
    phase_started_at = some now;
  }

  -- The job that is assumed when the map has none any more.
  unfoldable pub lost_job : JobPhase → Timestamp → JobStatus
  lost_job status now = record {
    status = status;
    started_at = now;
    completed_at = some now;
    phase = none;
    documents_synced = 0;
    documents_validated = 0;
    documents_missing = 0;
    documents_total = 0;
    distributions_total = 0;
    distribution_index = 0;
    distribution_documents_current = 0;
    distribution_documents_total = 0;
    phase_current = 0;
    phase_total = 0;
    error = none;
    completed_phases = [];
    last_completed_at = none;
    phase_started_at = none;
  }

  abbrev pub or_lost : JobPhase → Timestamp → Option JobStatus → JobStatus
  unfolding lost_job
  or_lost status now none = lost_job status now
  or_lost status now (some job) = job

  unfoldable pub completed_job : Timestamp → JobStatus → JobStatus
  unfolding complete_phase
  completed_job now job = record job {
    status = completed;
    completed_at = some now;
    phase = none;
    completed_phases = complete_phase job.phase job.completed_phases;
  }

  unfoldable pub failed_job : Timestamp → Text → JobStatus → JobStatus
  failed_job now e job = record job { status = failed; completed_at = some now; error = some e }

  unfoldable pub store_counts : Text → JobStatus → Action D Unit
  store_counts domain job = do
    state ← load_sync_state domain
    save_sync_state domain (record state {
      documents_synced = job.documents_synced;
      documents_validated = job.documents_validated;
      documents_missing = job.documents_missing;
      documents_total = job.documents_total;
    })

  abbrev unwrap_or : Option Timestamp → Timestamp → Timestamp
  unwrap_or none now = now
  unwrap_or (some t) now = t

  -- `persist_job_counts`, whose failures are logged. The points for the charts are left out. A
  -- duration is 0 where the source's, which is signed, is negative: a clock that was set back.
  unfoldable pub persist_job_counts : Text → JobStatus → Action D Unit
  persist_job_counts domain job = do
    warn_only (store_counts domain job)
    now ← clock inputs
    warn_only (
        call domain (
          inputs.services.save_sync_run domain now job.documents_synced job.documents_missing
            (saturating_sub (unwrap_or job.completed_at now) job.started_at)))

  -- The status of the job at its end; `now` is the clock. One reading stands for the few that the
  -- source makes one after another.
  unfoldable pub finish_job : Text → Result (Unit {0}) → Action D Unit
  finish_job domain (ok _) = do
    now ← clock inputs
    job ← read (λ w. ok (or_lost completed now (Map.get domain w.registry.jobs)))
    change_registry (update_job domain (completed_job now job))
    persist_job_counts domain (completed_job now job)
  finish_job domain (err e) = do
    now ← clock inputs
    job ← read (λ w. ok (or_lost failed now (Map.get domain w.registry.jobs)))
    change_registry (update_job domain (failed_job now e job))

  unfoldable pub run_kind : JobKind → Source → Action D Unit
  run_kind sync_job source = run_pipeline source
  run_kind revalidate_job source = run_revalidation source

  abbrev pub completion : Option JobStatus → Option Timestamp
  completion none = none
  completion (some job) = job.completed_at

  unfoldable pub start_job : Text → JobKind → Action D Unit
  start_job domain kind = do
    last_completed ← read (λ w. ok (completion (Map.get domain w.registry.jobs)))
    now ← clock inputs
    change_registry (update_job domain (started_job kind now last_completed))

  unfoldable pub job_finished : JobFinished → World D → World D
  job_finished event w = record w { finished = w.finished ++ (event ∷ []) }

  -- What follows the run: the status, the event, and the result of the run.
  abbrev pub conclude : Text → JobKind → Result (Unit {0}) × World D → Result (Unit {0}) × World D
  unfolding warn_only finish_job job_finished
  conclude domain kind (r, w) = (
    r,
    job_finished (record { domain = domain; kind = kind; success = is_ok r })
        (warn_only (finish_job domain r) w).1,
  )

  unfoldable pub tracked_job : Source → JobKind → Action D Unit
  unfolding warn_only finish_job job_finished
  tracked_job source kind w =
      conclude source.domain kind ((start_job source.domain kind >> run_kind kind source) w)

  abbrev pub is_held : Text → List Text → Bool
  is_held domain held = any (text_eq domain) held

  abbrev pub release : List Text → Result (Unit {0}) × World D → Result (Unit {0}) × World D
  release held (r, w) = (r, record w { held = held })

  -- The lock of the provider is tried; a job that holds it makes this one a success that did
  -- nothing. The guard gives it back at the end.
  unfoldable pub run_job : Source → JobKind → Action D Unit
  run_job source kind w =
      branch (is_held source.domain w.held) (pure tt)
        (λ v. release v.held (tracked_job source kind (record v { held = source.domain ∷ v.held })))
        w

  -- `run_provider`
  unfoldable pub run_provider : Source → Action D Unit
  run_provider source = run_job source sync_job

  -- `revalidate_provider`
  unfoldable pub revalidate_provider : Source → Action D Unit
  revalidate_provider source = run_job source revalidate_job
