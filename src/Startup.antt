-- ===== src/Startup.antt =====
-- server/src/startup.rs: the progress of the start, the restored jobs, and the gate in front of the
-- data endpoints, with the paths that server/src/rate_limit.rs limits.
pub mod Progress
pub mod Access
use csaf_trove.Base.{
  ℕ, ◌+◌, ◌-◌, Bool, true, false, ◌&&◌, not, Option, none, some, List, [], ◌∷◌, ◌++◌, any, length,
  is_some, if◌then◌else◌,
}
use csaf_trove.Base.Text.{Text, bytes, text_eq, starts_with}
use csaf_trove.Base.Map
use csaf_trove.Base.Map.{Map}
use csaf_trove.Base.Effect.{Result, ok, err}
use csaf_trove.Jobs.{JobStatus, Registry, Timestamp, completed}
use csaf_trove.Runner.World.{SyncState}

-- `StartupStatus`
pub record StartupStatus : Type 0 where
  pub ready : Bool
  pub task : Option Text
  pub current : ℕ
  pub total : ℕ
  pub completed : List Text

-- `StartupStatus::default`
unfoldable pub initial : StartupStatus
initial = record { ready = false; task = none; current = 0; total = 0; completed = [] }

-- `completed.extend(task.take())`
abbrev pub extend : List Text → Option Text → List Text
extend done none = done
extend done (some task) = done ++ (task ∷ [])

unfoldable pub begin : Text → StartupStatus → StartupStatus
begin task s = record s {
  completed = extend s.completed s.task;
  task = some task;
  current = 0;
  total = 0;
}

-- `Startup::progress`
unfoldable pub advance_task : ℕ → ℕ → StartupStatus → StartupStatus
advance_task current total s = record s { current = current; total = total }

unfoldable pub finish : StartupStatus → StartupStatus
finish s = record s {
  completed = extend s.completed s.task;
  task = none;
  current = 0;
  total = 0;
  ready = true;
}

-- A job that a persisted sync state stands for, with the duration of its last run, 0 if unknown. The
-- source's start is signed: it differs only for a run that is longer than the time since 1970.
unfoldable pub restored_job : SyncState → Timestamp → ℕ → JobStatus
restored_job ss last_sync duration = record {
  status = completed;
  started_at = last_sync - duration;
  completed_at = some last_sync;
  phase = none;
  documents_synced = ss.documents_synced;
  documents_validated = ss.documents_validated;
  documents_missing = ss.documents_missing;
  documents_total = ss.documents_total;
  distributions_total = 0;
  distribution_index = 0;
  distribution_documents_current = 0;
  distribution_documents_total = 0;
  phase_current = 0;
  phase_total = 0;
  error = none;
  completed_phases = [];
  last_completed_at = some last_sync;
  phase_started_at = none;
}

-- The two loops of `restore_jobs` as one: a state without a successful sync restores nothing.
unfoldable pub restore_state :
    (Text → ℕ) → Map JobStatus → SyncState → Option Timestamp → Map JobStatus
unfolding restored_job Map.insert
restore_state duration jobs ss none = jobs
restore_state duration jobs ss (some last_sync) =
    Map.insert ss.domain (restored_job ss last_sync (duration ss.domain)) jobs

abbrev pub restore_all : (Text → ℕ) → List SyncState → Map JobStatus → Map JobStatus
unfolding restore_state
restore_all duration [] jobs = jobs
restore_all duration (ss ∷ sss) jobs =
    restore_all duration sss (restore_state duration jobs ss ss.last_sync)

unfoldable pub restore_jobs : (Text → ℕ) → Result (List SyncState) → Registry → Registry
unfolding restore_state
restore_jobs duration (err e) r = r
restore_jobs duration (ok states) r = record r { jobs = restore_all duration states r.jobs }

-- `GATED_PREFIXES`, which are also the `LIMITED_PREFIXES` of the rate limiter.
abbrev pub gated_prefixes : List Text
gated_prefixes = bytes "/api/" ∷ bytes "/mcp" ∷ bytes "/.well-known/" ∷ []

abbrev pub status_path : Text
status_path = bytes "/api/startup"

unfoldable pub is_gated : Text → Bool
unfolding text_eq starts_with
is_gated path = not (text_eq path status_path) && any (starts_with path) gated_prefixes

abbrev pub exempt_prefixes : List Text
exempt_prefixes = bytes "/api/webhook/" ∷ bytes "/api/startup" ∷ []

unfoldable pub is_limited : Text → Bool
unfolding starts_with
is_limited path =
    any (starts_with path) gated_prefixes && not (any (starts_with path) exempt_prefixes)
