-- ===== src/Jobs/History.antt =====
-- The phases that a job went through, in order, under every method that changes the status map.
use mathlib.Core.List.{append_assoc, append-nil}
use mathlib.Core.Option
use csaf_trove.Base.{
  ℕ, ◌+◌, ◌≡◌, refl, ◌≢◌, ◌⊎◌, ◌∙◌, false, Option, none, some, List, [], ◌∷◌, ◌++◌, arith, inl, inr,
  ap, length,
}
use csaf_trove.Base.Text.{Text, text_eq, text_eq_refl}
use csaf_trove.Base.Map
use csaf_trove.Jobs.{
  PipelinePhase, PipelinePhase-discrete, JobStatus, Registry, Timestamp, discover, sync, phase_work,
  distribution_work, synced_work, validated_work, set_phase_work, get_job, start_distribution,
  set_phase_progress, increment_job_synced, increment_job_validated,
}

-- The methods that report progress of a running job, with their arguments.
pub data Report : Type 0 where
  work : Timestamp → Option PipelinePhase → ℕ → ℕ → Report
  distribution : ℕ → ℕ → Report
  progress : ℕ → ℕ → Report
  synced : Report
  validated : Report

unfoldable pub report_job : Report → JobStatus → JobStatus
unfolding phase_work distribution_work synced_work validated_work
report_job (work now phase current total) job = phase_work now phase current total job
report_job (distribution doc_count distributions) job =
    distribution_work doc_count distributions job
report_job (progress current total) job = record job {
  phase_current = current;
  phase_total = total;
}
report_job synced job = synced_work job
report_job validated job = validated_work job

unfoldable pub report : Text → Report → Registry → Registry
unfolding set_phase_work start_distribution set_phase_progress increment_job_synced
    increment_job_validated
report domain (work now phase current total) r = set_phase_work now domain phase current total r
report domain (distribution doc_count distributions) r =
    start_distribution domain doc_count distributions r
report domain (progress current total) r = set_phase_progress domain current total r
report domain synced r = increment_job_synced domain r
report domain validated r = increment_job_validated domain r

abbrev pub report_all : Text → List Report → Registry → Registry
report_all domain [] r = r
report_all domain (e ∷ es) r = report_all domain es (report domain e r)

abbrev pub report_job_all : List Report → JobStatus → JobStatus
report_job_all [] job = job
report_job_all (e ∷ es) job = report_job_all es (report_job e job)

-- Completed phases, then the current one.
abbrev pub trail : Option PipelinePhase → List PipelinePhase → List PipelinePhase
trail none done = done
trail (some p) done = done ++ (p ∷ [])

abbrev pub history : JobStatus → List PipelinePhase
history job = trail job.phase job.completed_phases

-- No phase stands twice in a row.
abbrev pub NoRepeat : List PipelinePhase → Type 0
NoRepeat [] = Unit
NoRepeat (p ∷ []) = Unit
NoRepeat (p ∷ q ∷ ps) = (p ≢ q) × NoRepeat (q ∷ ps)

-- A job with a current phase, none of whose phases was entered twice in a row.
abbrev pub IsTracked : JobStatus → Type 0
IsTracked job =
    (p : PipelinePhase) × (job.phase ≡ some p) × NoRepeat (job.completed_phases ++ (p ∷ []))

NoRepeat-append :
    (ps : List PipelinePhase) (p q : PipelinePhase)
    → NoRepeat (ps ++ (p ∷ []))
    → p ≢ q
    → NoRepeat ((ps ++ (p ∷ [])) ++ (q ∷ []))
NoRepeat-append [] p q h ne = (ne, tt)
NoRepeat-append (x ∷ []) p q h ne = (h.0, (ne, tt))
NoRepeat-append (x ∷ y ∷ ps) p q h ne = (h.0, NoRepeat-append (y ∷ ps) p q h.1 ne)

-- A report keeps the current phase, or completes it and enters another one.
abbrev Moves : JobStatus → JobStatus → Type 0
Moves job job' =
    ((job'.phase ≡ job.phase) × (job'.completed_phases ≡ job.completed_phases))
    ⊎ ((p : PipelinePhase) × (q : PipelinePhase) × (job.phase ≡ some p)
        × (p ≢ q)
        × (job'.phase ≡ some q)
        × (job'.completed_phases ≡ job.completed_phases ++ (p ∷ [])))

phase_work-Moves :
    (now : Timestamp) (phase : Option PipelinePhase) (current total : ℕ) (job : JobStatus)
    (p : PipelinePhase)
    → job.phase ≡ some p
    → Moves job (phase_work now phase current total job)
unfolding phase_work
phase_work-Moves now none current total job p e = inl (refl, refl)
phase_work-Moves now (some q) current total job p e = elim (PipelinePhase-discrete p q) [
  | yes s ↦ inl (ground arith, ground arith)
  | no n ↦ inr (p, q, e, n, ground arith, ground arith)
]

distribution_work-Moves :
    (n m : ℕ) (job : JobStatus) (p : PipelinePhase)
    → job.phase ≡ some p
    → Moves job (distribution_work n m job)
unfolding distribution_work
distribution_work-Moves n m job p e = elim (PipelinePhase-discrete p discover) [
  | yes s ↦ inr (p, sync, e, (λ t. cc), ground arith, ground arith)
  | no d ↦ inl (ground arith, ground arith)
]

report_job-Moves : (e : Report) (job : JobStatus) → IsTracked job → Moves job (report_job e job)
unfolding report_job
report_job-Moves (work now phase current total) job t =
    phase_work-Moves now phase current total job t.0 t.1
report_job-Moves (distribution n m) job t = distribution_work-Moves n m job t.0 t.1
report_job-Moves (progress n m) job t = inl (refl, refl)
report_job-Moves synced job t = inl (refl, refl)
report_job-Moves validated job t = inl (refl, refl)

Moves-IsTracked :
    (job job' : JobStatus)
    → IsTracked job
    → Moves job job'
    → IsTracked job' × ((more : List PipelinePhase) × (history job' ≡ history job ++ more))
Moves-IsTracked job job' (p, e, h) (inl (f, g)) = ((p, f ∙ e, rw g h), ([], rw (f, g, append-nil)))
Moves-IsTracked job job' (p, e, h) (inr (p', q, e', ne, f, g)) =
    let same : p ≡ p' = cc in
    (
      (q, f, rw g (NoRepeat-append job.completed_phases p' q (rw same at h) ne)),
      (q ∷ [], rw (f, g, e')),
    )

pub get_job-report :
    (domain : Text) (e : Report) (r : Registry)
    → get_job domain (report domain e r) ≡ Option.map (report_job e) (get_job domain r)
unfolding report report_job get_job
get_job-report domain (work now phase current total) r = rw (Map.get-modify, text_eq_refl)
get_job-report domain (distribution n m) r = rw (Map.get-modify, text_eq_refl)
get_job-report domain (progress n m) r = rw (Map.get-modify, text_eq_refl)
get_job-report domain synced r = rw (Map.get-modify, text_eq_refl)
get_job-report domain validated r = rw (Map.get-modify, text_eq_refl)

-- The methods that report progress keep a job that has a phase and whose history never repeats a
-- phase in a row, in any order and number of calls: the job still has both, and its history is
-- the old one with further phases behind it.
pub report_all-history :
    (domain : Text) (es : List Report) (r : Registry) (job : JobStatus)
    → get_job domain r ≡ some job
    → IsTracked job
    → (job' : JobStatus) × (get_job domain (report_all domain es r) ≡ some job')
      × IsTracked job'
      × ((more : List PipelinePhase) × (history job' ≡ history job ++ more))
report_all-history domain [] r job e t = (job, e, t, ([], rw append-nil))
report_all-history domain (x ∷ es) r job e t =
    let step = Moves-IsTracked job (report_job x job) t (report_job-Moves x job t) in
    let found : get_job domain (report domain x r) ≡ some (report_job x job) =
      get_job-report domain x r ∙ ap (Option.map (report_job x)) e in
    let (job', e', t', grown) =
      report_all-history domain es (report domain x r) (report_job x job) found step.0 in
    (
      job',
      e',
      t',
      (
        step.1.0 ++ grown.0,
        grown.1
            ∙ ap (λ (h : List PipelinePhase). h ++ grown.0) step.1.1
            ∙ append_assoc (history job) step.1.0 grown.0,
      ),
    )

report-frame :
    (domain other : Text) (e : Report) (r : Registry)
    → text_eq domain other ≡ false
    → (get_job other (report domain e r) ≡ get_job other r)
      × ((report domain e r).notified ≡ r.notified + 1)
unfolding report get_job
report-frame domain other (work now phase current total) r h = (rw (Map.get-modify, h), refl)
report-frame domain other (distribution n m) r h = (rw (Map.get-modify, h), refl)
report-frame domain other (progress n m) r h = (rw (Map.get-modify, h), refl)
report-frame domain other synced r h = (rw (Map.get-modify, h), refl)
report-frame domain other validated r h = (rw (Map.get-modify, h), refl)

-- Reports on one provider leave the status of every other provider alone, and each of them wakes
-- the listeners once, whether or not the provider has a job.
pub report_all-frame :
    (domain other : Text) (es : List Report) (r : Registry)
    → text_eq domain other ≡ false
    → (get_job other (report_all domain es r) ≡ get_job other r)
      × ((report_all domain es r).notified ≡ r.notified + length es)
report_all-frame domain other [] r h = (refl, omega arith)
report_all-frame domain other (e ∷ es) r h =
    let step = report-frame domain other e r h in
    let rest = report_all-frame domain other es (report domain e r) h in
    (rest.0 ∙ step.0, omega (arith, step.1, rest.1))
