-- ===== src/Runner/Pipeline/Finish.antt =====
-- How a job ends: its status, its event and its lock.
use mathlib.Core.Option
use csaf_trove.Base.{
  ◌≡◌, refl, ◌∙◌, ap, Bool, true, false, Option, none, some, List, [], ◌∷◌, ◌++◌, Bool-cases, inl,
  inr, is_some,
}
use csaf_trove.Base.Text.{Text, text_eq_refl}
use csaf_trove.Base.Map
use csaf_trove.Base.Effect.{Result, ok, err, is_ok}
use csaf_trove.Jobs.{
  JobStatus, Registry, Timestamp, PipelinePhase, enter_phase, entered_phase, completed, failed,
  update_job, discover, same_phase, get_job,
}
use csaf_trove.Jobs.History.{
  Report, work, distribution, progress, synced, validated, report, report_job, report_all,
  get_job-report,
}
use csaf_trove.Runner.World.{
  World, Action, Call, Source, SyncState, JobKind, JobFinished, call, ◌>>=◌, ◌>>◌, pure, read,
  branch, warn_only, forgive, change_registry,
}
use csaf_trove.Runner.Snapshot.{Inputs, clock}
use csaf_trove.Runner.Pipeline.Locks.{SameLocks, started-Quiet}
use csaf_trove.Runner.Snapshot.Moves.{Moves, bind-Moves, then-Moves, read-Moves, warn_only-Moves}
use csaf_trove.Runner.Pipeline.{
  load_sync_state, save_sync_state, store_sync_state, store_counts, persist_job_counts, finish_job,
  completed_job, failed_job, or_lost, conclude, tracked_job, run_job, is_held, release, start_job,
  run_kind, job_finished,
}

-- The status that goes with the result of a run.
abbrev pub Ended : Result (Unit {0}) → JobStatus → Type 0
Ended (ok _) job = (job.status ≡ completed) × (is_some job.completed_at ≡ true)
Ended (err e) job = (job.status ≡ failed) × (is_some job.completed_at ≡ true) × (job.error ≡ some e)

-- A status, a time of completion and an error are not what reports change.
abbrev SameEnd : JobStatus → JobStatus → Type 0
SameEnd old new =
    (new.status ≡ old.status) × (new.completed_at ≡ old.completed_at) × (new.error ≡ old.error)

report_job-SameEnd : (e : Report) (job : JobStatus) → SameEnd job (report_job e job)
unfolding report_job
report_job-SameEnd (work now phase current total) job = entered (entered_phase job.phase phase)
  where
    entered :
        (p : Option PipelinePhase)
        → SameEnd job
            (record (enter_phase now p job) { phase_current = current; phase_total = total })
    entered none = (refl, refl, refl)
    entered (some p) = (refl, refl, refl)
report_job-SameEnd (distribution n m) job =
    elim (Bool-cases (same_phase job.phase (some discover))) [
      | inl left ↦ rw left (refl, refl, refl)
      | inr later ↦ rw later (refl, refl, refl)
    ]
report_job-SameEnd (progress n m) job = (refl, refl, refl)
report_job-SameEnd synced job = (refl, refl, refl)
report_job-SameEnd validated job = (refl, refl, refl)

Ended-same :
    (r : Result (Unit {0})) (old new : JobStatus) → SameEnd old new → Ended r old → Ended r new
Ended-same (ok _) old new same h =
    (same.0 ∙ h.0, ap (λ (t : Option Timestamp). is_some t) same.1 ∙ h.1)
Ended-same (err e) old new same h =
    (same.0 ∙ h.0, ap (λ (t : Option Timestamp). is_some t) same.1 ∙ h.1, same.2 ∙ h.2)

-- The provider's job has the status of the result.
abbrev pub HasEnded : Text → Result (Unit {0}) → Registry → Type 0
HasEnded domain r registry = (job : JobStatus) × (get_job domain registry ≡ some job) × Ended r job

report_all-HasEnded :
    (domain : Text) (r : Result (Unit {0})) (es : List Report) (registry : Registry)
    → HasEnded domain r registry
    → HasEnded domain r (report_all domain es registry)
report_all-HasEnded domain r [] registry h = h
report_all-HasEnded domain r (e ∷ es) registry (job, found, ended) =
    report_all-HasEnded domain r es (report domain e registry) (
      report_job e job,
      get_job-report domain e registry ∙ ap (Option.map (report_job e)) found,
      Ended-same r job (report_job e job) (report_job-SameEnd e job) ended,
    )

module _ {D : Type 0} (domain : Text) (r : Result (Unit {0})) where
  -- A status that stands is kept, and so are locks and events.
  pub record Settled (w v : World D) : Type 0 where
    pub ended : HasEnded domain r w.registry → HasEnded domain r v.registry
    pub held : v.held ≡ w.held
    pub finished : v.finished ≡ w.finished

  Settled-trans : (u v w : World D) → Settled u v → Settled v w → Settled u w
  Settled-trans u v w h k = record {
    ended = λ e. k.ended (h.ended e);
    held = k.held ∙ h.held;
    finished = k.finished ∙ h.finished;
  }

  Settled-refl : (w : World D) → Settled w w
  Settled-refl w = record { ended = λ e. e; held = refl; finished = refl }

  abbrev Settles : {A : Type 0} → Action D A → Type 0
  Settles m = Moves (λ w v. Settled w v) m

  bind :
      {A B : Type 0} {m : Action D A} {f : A → Action D B}
      → Settles m
      → ((a : A) → Settles (f a))
      → Settles (m >>= f)
  bind {m} {f} = bind-Moves (λ w v. Settled w v) Settled-trans Settled-refl m f

  next : {A B : Type 0} {m : Action D A} {k : Action D B} → Settles m → Settles k → Settles (m >> k)
  next {m} {k} = then-Moves (λ w v. Settled w v) Settled-trans Settled-refl m k

  warned : {A : Type 0} {m : Action D A} → Settles m → Settles (warn_only m)
  warned {A} {m} = warn_only-Moves (λ w v. Settled w v) Settled-trans Settled-refl m

  told : {A : Type 0} (f : World D → Result A) → Settles (read f)
  told f = read-Moves (λ w v. Settled w v) Settled-trans Settled-refl f

  called : {A : Type 0} (c : Call D A) → Settles (call domain c)
  unfolding call
  called c = record {
    moves = λ w. record {
      ended = report_all-HasEnded domain r (c w.rest).reports w.registry;
      held = refl;
      finished = refl;
    };
  }

module _ {D : Type 0} (inputs : Inputs D) where
  load-Settles :
      (domain : Text) (r : Result (Unit {0})) → Settles domain r (load_sync_state inputs domain)
  unfolding load_sync_state
  load-Settles domain r = next domain r (called domain r _) (told domain r _)

  save-Settles :
      (domain : Text) (r : Result (Unit {0})) (s : SyncState)
      → Settles domain r (save_sync_state inputs domain s)
  unfolding save_sync_state store_sync_state
  save-Settles domain r s =
      next domain r (called domain r _)
        (record { moves = λ w. record { ended = λ e. e; held = refl; finished = refl } })

  persist-Settles :
      (domain : Text) (r : Result (Unit {0})) (job : JobStatus)
      → Settles domain r (persist_job_counts inputs domain job)
  unfolding persist_job_counts store_counts clock
  persist-Settles domain r job =
      next domain r
        (warned domain r (bind domain r (load-Settles domain r) (λ state. save-Settles domain r _)))
        (bind domain r
          (record { moves = λ w. record { ended = λ e. e; held = refl; finished = refl } })
          (λ now. warned domain r (called domain r _)))

  -- What stands when the job is finished.
  abbrev Concluded : Text → Result (Unit {0}) → World D → World D → Type 0
  Concluded domain r w v =
      HasEnded domain r v.registry × (v.held ≡ w.held) × (v.finished ≡ w.finished)

  forgiven :
      (domain : Text) (r : Result (Unit {0})) (w u : World D) (x : Result (Unit {0}) × World D)
      → HasEnded domain r u.registry
      → u.held ≡ w.held
      → u.finished ≡ w.finished
      → Settled domain r u x.1
      → Concluded domain r w (forgive x).1
  forgiven domain r w u (e, v) ended held finished settled =
      (settled.ended ended, settled.held ∙ held, settled.finished ∙ finished)

  finish_job-Concluded :
      (domain : Text) (r : Result (Unit {0})) (w : World D)
      → Concluded domain r w (warn_only (finish_job inputs domain r) w).1
  unfolding finish_job warn_only ◌>>=◌ ◌>>◌ clock read change_registry update_job completed_job
      failed_job get_job
  finish_job-Concluded domain (ok a) w =
      let now = (inputs.services.now_utc w.rest).0 in
      let job =
        completed_job inputs now (or_lost inputs completed now (Map.get domain w.registry.jobs)) in
      let u : World D = record w {
        rest = (inputs.services.now_utc w.rest).1;
        registry = update_job domain job w.registry;
      } in
      forgiven domain (ok a) w u (persist_job_counts inputs domain job u)
        (job, Map.get-insert domain domain job w.registry.jobs ∙ rw text_eq_refl, (refl, refl)) refl
        refl ((persist-Settles domain (ok a) job).moves u)
  finish_job-Concluded domain (err e) w =
      let now = (inputs.services.now_utc w.rest).0 in
      let job =
        failed_job inputs now e (or_lost inputs failed now (Map.get domain w.registry.jobs)) in
      (
        (
          job,
          Map.get-insert domain domain job w.registry.jobs ∙ rw text_eq_refl,
          (refl, refl, refl),
        ),
        refl,
        refl,
      )

  -- How a job that has got its lock ends.
  abbrev pub JobRule : Source → JobKind → World D → Result (Unit {0}) × World D → Type 0
  JobRule source kind w (r, v) =
      HasEnded source.domain r v.registry
      × (v.held ≡ w.held)
      × (v.finished
          ≡ w.finished ++ (record { domain = source.domain; kind = kind; success = is_ok r } ∷ []))

  conclude-rule :
      (source : Source) (kind : JobKind) (w : World D) (x : Result (Unit {0}) × World D)
      → SameLocks w x.1
      → JobRule source kind w (conclude inputs source.domain kind x)
  unfolding job_finished conclude warn_only
  conclude-rule source kind w (r, v) same =
      let (ended, held, finished) = finish_job-Concluded source.domain r v in
      (
        ended,
        held ∙ same.held,
        ap
            (λ (es : List JobFinished).
              es ++ (record { domain = source.domain; kind = kind; success = is_ok r } ∷ []))
            (finished ∙ same.finished),
      )

  released :
      (source : Source) (kind : JobKind) (w v : World D) (x : Result (Unit {0}) × World D)
      → v.finished ≡ w.finished
      → JobRule source kind v x
      → JobRule source kind w (release inputs w.held x)
  released source kind w v (r, u) same (ended, held, finished) = (
    ended,
    refl,
    finished
        ∙ ap
            (λ (es : List JobFinished).
              es ++ (record { domain = source.domain; kind = kind; success = is_ok r } ∷ []))
            same,
  )

  abbrev pub JobOutcome : Bool → Source → JobKind → World D → Result (Unit {0}) × World D → Type 0
  JobOutcome true source kind w x = x ≡ (ok tt, w)
  JobOutcome false source kind w x = JobRule source kind w x

  outcome :
      (busy : Bool) (source : Source) (kind : JobKind) (w : World D) (job : Action D (Unit {0}))
      → JobRule source kind w (job w)
      → JobOutcome busy source kind w (branch busy (pure tt) job w)
  unfolding branch pure read
  outcome true source kind w job rule = refl
  outcome false source kind w job rule = rule

  -- A job whose provider is locked succeeds without doing anything. Any other job, of either kind
  -- and however it ends, leaves the provider with the status completed or failed that goes with
  -- its result, a time of completion, and the error's text if it failed; it sends exactly one
  -- event, which says whether it succeeded, and gives its lock back.
  pub run_job-JobOutcome :
      (source : Source) (kind : JobKind) (w : World D)
      → JobOutcome
          (is_held inputs source.domain w.held)
          source
          kind
          w
          (run_job inputs source kind w)
  unfolding run_job tracked_job
  run_job-JobOutcome source kind w =
      let v : World D = record w { held = source.domain ∷ w.held } in
      outcome (is_held inputs source.domain w.held) source kind w _ (
        released source kind w v (tracked_job inputs source kind v) refl (
          conclude-rule source kind v
            ((start_job inputs source.domain kind >> run_kind inputs kind source) v)
            ((started-Quiet inputs source kind).moves v)))
