-- ===== src/Runner/Progress/Laws.antt =====
-- Merging samples loses nothing: a published queue leaves the job that publishing every sample
-- leaves, but for the number of wake-ups and the exact start of a phase.
use mathlib.Core.Option
use csaf_trove.Base.{
  ℕ, ◌≡◌, refl, sym, ◌∙◌, ap, true, Option, none, some, List, [], ◌∷◌, ◌++◌, arith, Bool-cases, inl,
  inr,
}
use csaf_trove.Base.Text.{Text, text_eq_refl}
use csaf_trove.Base.Map
use csaf_trove.Jobs.{JobStatus, PipelinePhase, Registry, Timestamp, same_phase, phase_work, get_job}
use csaf_trove.Runner.Progress.{
  ProgressSample, Event, sampled, ticked, record_sample, publish_sample, publish, run,
}

-- A job without the time at which its phase began.
abbrev pub untimed : JobStatus → JobStatus
untimed job = record job { phase_started_at = none }

-- The status of a provider's job as far as times do not enter.
abbrev pub view : Text → Registry → Option JobStatus
view domain r = Option.map untimed (get_job domain r)

-- The samples that the work reports, in order.
abbrev pub samples_of : List Event → List ProgressSample
samples_of [] = []
samples_of (sampled sample ∷ events) = sample ∷ samples_of events
samples_of (ticked now ∷ events) = samples_of events

abbrev sample_job : ProgressSample → JobStatus → JobStatus
sample_job s job = untimed (phase_work 0 s.phase s.current s.total job)

abbrev apply_samples : List ProgressSample → Option JobStatus → Option JobStatus
apply_samples [] job = job
apply_samples (s ∷ samples) job = apply_samples samples (Option.map (sample_job s) job)

untimed-phase_work :
    (now : Timestamp) (phase : Option PipelinePhase) (current total : ℕ) (job : JobStatus)
    → untimed (phase_work now phase current total job)
      ≡ untimed (phase_work 0 phase current total (untimed job))
unfolding phase_work
untimed-phase_work now none current total job = refl
untimed-phase_work now (some p) current total job = ground arith

-- Of two reports of one phase only the second counts.
phase_work_twice :
    (p q : Option PipelinePhase) (a b c d : ℕ) (job : JobStatus)
    → same_phase p q ≡ true
    → untimed (phase_work 0 q c d (untimed (phase_work 0 p a b job)))
      ≡ untimed (phase_work 0 q c d job)
unfolding phase_work
phase_work_twice none none a b c d job h = refl
phase_work_twice none (some q) a b c d job h = cc
phase_work_twice (some p) none a b c d job h = cc
phase_work_twice (some p) (some q) a b c d job h = ground arith

sample_job_twice :
    (x y : ProgressSample) (job : Option JobStatus)
    → same_phase x.phase y.phase ≡ true
    → Option.map (sample_job y) (Option.map (sample_job x) job) ≡ Option.map (sample_job y) job
sample_job_twice x y none h = refl
sample_job_twice x y (some job) h =
    ap some (phase_work_twice x.phase y.phase x.current x.total y.current y.total job h)

apply_samples-append :
    (xs ys : List ProgressSample) (job : Option JobStatus)
    → apply_samples (xs ++ ys) job ≡ apply_samples ys (apply_samples xs job)
apply_samples-append [] ys job = refl
apply_samples-append (x ∷ xs) ys job = apply_samples-append xs ys _

apply_samples-record_sample :
    (samples : List ProgressSample) (next : ProgressSample) (job : Option JobStatus)
    → apply_samples (record_sample samples next) job ≡ apply_samples (samples ++ (next ∷ [])) job
unfolding record_sample
apply_samples-record_sample [] next job = refl
apply_samples-record_sample (last ∷ []) next job =
    elim (Bool-cases (same_phase last.phase next.phase)) [
      | inl same ↦ rw same (sym (sample_job_twice last next job same))
      | inr differ ↦ rw differ
    ]
apply_samples-record_sample (first ∷ second ∷ samples) next job =
    apply_samples-record_sample (second ∷ samples) next _

view-publish_sample :
    (now : Timestamp) (domain : Text) (s : ProgressSample) (r : Registry)
    → view domain (publish_sample now domain s r) ≡ Option.map (sample_job s) (view domain r)
unfolding publish_sample get_job
view-publish_sample now domain s r =
    rw (Map.get-modify, text_eq_refl) (lift (Map.get domain r.jobs))
  where
    lift :
        (job : Option JobStatus)
        → Option.map untimed (Option.map (phase_work now s.phase s.current s.total) job)
          ≡ Option.map (sample_job s) (Option.map untimed job)
    lift none = refl
    lift (some job) = ap some (untimed-phase_work now s.phase s.current s.total job)

view-publish :
    (now : Timestamp) (domain : Text) (samples : List ProgressSample) (r : Registry)
    → view domain (publish now domain samples r) ≡ apply_samples samples (view domain r)
unfolding publish
view-publish now domain [] r = refl
view-publish now domain (s ∷ samples) r =
    view-publish now domain samples (publish_sample now domain s r)
    ∙ ap (apply_samples samples) (view-publish_sample now domain s r)

apply_samples-run :
    (domain : Text) (finished : Timestamp) (events : List Event) (samples : List ProgressSample)
    (r : Registry)
    → view domain (run domain finished events samples r)
      ≡ apply_samples (samples_of events) (apply_samples samples (view domain r))
unfolding run
apply_samples-run domain finished [] samples r = view-publish finished domain samples r
apply_samples-run domain finished (sampled s ∷ events) samples r =
    apply_samples-run domain finished events (record_sample samples s) r
    ∙ ap (apply_samples (samples_of events)) (
        apply_samples-record_sample samples s (view domain r)
        ∙ apply_samples-append samples (s ∷ []) (view domain r))
apply_samples-run domain finished (ticked now ∷ events) samples r =
    apply_samples-run domain finished events [] (publish now domain samples r)
    ∙ ap (apply_samples (samples_of events)) (view-publish now domain samples r)

-- Whenever the timer fires between the samples, the job that `run` leaves is, but for the start
-- of its phase, the job that publishing the queue and then every sample by itself leaves: merging
-- in the queue drops no phase and no last counter, and the final samples are published too.
pub run_coalesces :
    (domain : Text) (finished now : Timestamp) (events : List Event) (samples : List ProgressSample)
    (r : Registry)
    → view domain (run domain finished events samples r)
      ≡ view domain (publish now domain (samples ++ samples_of events) r)
run_coalesces domain finished now events samples r =
    apply_samples-run domain finished events samples r
    ∙ sym (
        view-publish now domain (samples ++ samples_of events) r
        ∙ apply_samples-append samples (samples_of events) (view domain r))
