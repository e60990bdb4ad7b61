-- ===== src/Jobs.antt =====
-- Job statuses of providers: server/src/models/state.rs, the phases of common/src/lib.rs, and the
-- methods of `AppState` in server/src/main.rs that change the status map.
pub mod History
use mathlib.Core.Logic.{ite}
use csaf_trove.Base.{
  ℕ, ◌+◌, ◌≡◌, Bool, true, false, ◌&&◌, not, Option, none, some, List, [], ◌∷◌, ◌++◌, add_u64,
  if◌then◌else◌,
}
use csaf_trove.Base.Text.{Text}
use csaf_trove.Base.Map
use csaf_trove.Base.Map.{Map}

-- `OffsetDateTime`, in nanoseconds since its earliest instant.
abbrev pub Timestamp : Type 0
Timestamp = ℕ

-- `PipelinePhase`
pub data PipelinePhase : Type 0 where
  maintenance checkout discover sync commit clean_selection select_inputs scan_history :
      PipelinePhase
  resolve_changes check_recovered_downloads clean_validation_files : PipelinePhase
  count_validation_files extract_validation_files clean_results validate : PipelinePhase
  version_counts summary report : PipelinePhase

pub PipelinePhase-discrete : Discrete PipelinePhase
PipelinePhase-discrete = hlevel

-- `==` of `PipelinePhase`
abbrev pub phase_eq : PipelinePhase → PipelinePhase → Bool
phase_eq p q = ite (PipelinePhase-discrete p q) true false

-- `==` of `Option<PipelinePhase>`
unfoldable pub same_phase : Option PipelinePhase → Option PipelinePhase → Bool
same_phase none none = true
same_phase none (some q) = false
same_phase (some p) none = false
same_phase (some p) (some q) = phase_eq p q

-- `JobPhase`
pub data JobPhase : Type 0 where
  pending running completed failed : JobPhase

pub record JobStatus : Type 0 where
  pub status : JobPhase
  pub started_at : Timestamp
  pub completed_at : Option Timestamp
  pub phase : Option PipelinePhase
  pub documents_synced : ℕ
  pub documents_validated : ℕ
  pub documents_missing : ℕ
  pub documents_total : ℕ
  pub distributions_total : ℕ
  pub distribution_index : ℕ
  pub distribution_documents_current : ℕ
  pub distribution_documents_total : ℕ
  pub phase_current : ℕ
  pub phase_total : ℕ
  pub error : Option Text
  pub completed_phases : List PipelinePhase
  pub last_completed_at : Option Timestamp
  pub phase_started_at : Option Timestamp

-- `jobs` of `AppState`, and how often `job_notify` was sent.
pub record Registry : Type 0 where
  pub jobs : Map JobStatus
  pub notified : ℕ

unfoldable pub notify : Registry → Registry
notify r = record r { notified = r.notified + 1 }

unfoldable pub update_job : Text → JobStatus → Registry → Registry
unfolding notify
update_job domain status r = notify (record r { jobs = Map.insert domain status r.jobs })

unfoldable pub get_job : Text → Registry → Option JobStatus
get_job domain r = Map.get domain r.jobs

-- `phase.filter(|phase| job.phase != Some(*phase))`
unfoldable pub entered_phase : Option PipelinePhase → Option PipelinePhase → Option PipelinePhase
unfolding same_phase
entered_phase old none = none
entered_phase old (some p) = if same_phase old (some p) then none else some p

-- The phase left behind goes to `completed_phases`.
unfoldable pub complete_phase : Option PipelinePhase → List PipelinePhase → List PipelinePhase
complete_phase none done = done
complete_phase (some old) done = done ++ (old ∷ [])

unfoldable pub enter_phase : Timestamp → Option PipelinePhase → JobStatus → JobStatus
unfolding complete_phase
enter_phase now none job = job
enter_phase now (some p) job = record job {
  phase = some p;
  completed_phases = complete_phase job.phase job.completed_phases;
  phase_started_at = some now;
  documents_total = 0;
  distributions_total = 0;
  distribution_index = 0;
  distribution_documents_current = 0;
  distribution_documents_total = 0;
}

-- What `set_phase_work` does to the job that it finds.
unfoldable pub phase_work : Timestamp → Option PipelinePhase → ℕ → ℕ → JobStatus → JobStatus
unfolding enter_phase entered_phase
phase_work now phase current total job =
    let entered = enter_phase now (entered_phase job.phase phase) job in
    record entered { phase_current = current; phase_total = total }

unfoldable pub change_job : Text → (JobStatus → JobStatus) → Registry → Registry
unfolding notify
change_job domain f r = notify (record r { jobs = Map.modify domain f r.jobs })

unfoldable pub set_phase_work :
    Timestamp → Text → Option PipelinePhase → ℕ → ℕ → Registry → Registry
unfolding change_job phase_work
set_phase_work now domain phase current total =
    change_job domain (phase_work now phase current total)

unfoldable pub update_job_phase : Timestamp → Text → PipelinePhase → Registry → Registry
unfolding set_phase_work
update_job_phase now domain phase = set_phase_work now domain (some phase) 0 0

-- The first distribution ends the discovery.
unfoldable pub leave_discovery : JobStatus → JobStatus
unfolding same_phase
leave_discovery job =
    if same_phase job.phase (some discover)
    then record job {
      completed_phases = job.completed_phases ++ (discover ∷ []);
      phase = some sync;
    }
    else job

unfoldable pub distribution_work : ℕ → ℕ → JobStatus → JobStatus
unfolding leave_discovery
distribution_work doc_count distributions job =
    let left = leave_discovery job in
    record left {
      documents_total = add_u64 left.documents_total doc_count;
      distributions_total = distributions;
      distribution_index = add_u64 left.distribution_index 1;
      distribution_documents_total = doc_count;
      distribution_documents_current = 0;
    }

unfoldable pub start_distribution : Text → ℕ → ℕ → Registry → Registry
unfolding change_job distribution_work
start_distribution domain doc_count distributions =
    change_job domain (distribution_work doc_count distributions)

unfoldable pub set_phase_progress : Text → ℕ → ℕ → Registry → Registry
unfolding change_job
set_phase_progress domain current total =
    change_job domain (λ job. record job { phase_current = current; phase_total = total })

unfoldable pub synced_work : JobStatus → JobStatus
synced_work job = record job {
  documents_synced = add_u64 job.documents_synced 1;
  distribution_documents_current = add_u64 job.distribution_documents_current 1;
}

unfoldable pub increment_job_synced : Text → Registry → Registry
unfolding change_job synced_work
increment_job_synced domain = change_job domain synced_work

unfoldable pub validated_work : JobStatus → JobStatus
validated_work job = record job {
  documents_validated = add_u64 job.documents_validated 1;
  distribution_documents_current = add_u64 job.distribution_documents_current 1;
}

unfoldable pub increment_job_validated : Text → Registry → Registry
unfolding change_job validated_work
increment_job_validated domain = change_job domain validated_work
