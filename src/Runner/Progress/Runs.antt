-- ===== src/Runner/Progress/Runs.antt =====
-- What the queue holds: one sample for each run of samples of the same phase, the last of the run.
use mathlib.Core.List.{append-nil}
use csaf_trove.Base.{
  ◌≡◌, refl, sym, ◌∙◌, ap, true, false, Option, List, [], ◌∷◌, ◌++◌, arith, Bool-cases, inl, inr,
  if◌then◌else◌,
}
use csaf_trove.Jobs.{PipelinePhase, same_phase}
use csaf_trove.Runner.Progress.{ProgressSample, record_sample}

-- Neighbours in the queue are of different phases.
abbrev pub Alternates : List ProgressSample → Type 0
Alternates [] = Unit
Alternates (x ∷ []) = Unit
Alternates (x ∷ y ∷ samples) = (same_phase x.phase y.phase ≡ false) × Alternates (y ∷ samples)

same_phase_trans :
    (p q r : Option PipelinePhase)
    → same_phase p q ≡ false
    → same_phase q r ≡ true
    → same_phase p r ≡ false
unfolding same_phase
same_phase_trans p q r h k = ground arith

-- Recording a sample keeps neighbours of different phases.
record_sample-Alternates :
    (samples : List ProgressSample) (next : ProgressSample)
    → Alternates samples
    → Alternates (record_sample samples next)
unfolding record_sample
record_sample-Alternates [] next h = tt
record_sample-Alternates (last ∷ []) next h = ground arith
record_sample-Alternates (x ∷ y ∷ []) next h =
    ground (arith, same_phase_trans x.phase y.phase next.phase)
record_sample-Alternates (x ∷ y ∷ z ∷ samples) next h =
    (h.0, record_sample-Alternates (y ∷ z ∷ samples) next h.1)

-- The last sample of every run of samples of one phase.
abbrev pub last_of_runs : List ProgressSample → List ProgressSample
last_of_runs [] = []
last_of_runs (x ∷ []) = x ∷ []
last_of_runs (x ∷ y ∷ samples) =
    let later = last_of_runs (y ∷ samples) in
    if same_phase x.phase y.phase then later else x ∷ later

last_of_runs-Alternates :
    (samples : List ProgressSample) → Alternates samples → last_of_runs samples ≡ samples
last_of_runs-Alternates [] h = refl
last_of_runs-Alternates (x ∷ []) h = refl
last_of_runs-Alternates (x ∷ y ∷ samples) (differ, h) =
    rw differ (ap (λ (s : List ProgressSample). x ∷ s) (last_of_runs-Alternates (y ∷ samples) h))

-- A sample of another phase stays in front.
last_of_runs-differ :
    (x y : ProgressSample) (samples : List ProgressSample)
    → same_phase x.phase y.phase ≡ false
    → last_of_runs (x ∷ y ∷ samples) ≡ x ∷ last_of_runs (y ∷ samples)
last_of_runs-differ x y samples differ = rw differ refl

last_of_runs-record_sample :
    (queue : List ProgressSample) (next : ProgressSample) (samples : List ProgressSample)
    → Alternates queue
    → last_of_runs (record_sample queue next ++ samples) ≡ last_of_runs (queue ++ (next ∷ samples))
unfolding record_sample
last_of_runs-record_sample [] next samples h = refl
last_of_runs-record_sample (last ∷ []) next samples h =
    elim (Bool-cases (same_phase last.phase next.phase)) [
      | inl same ↦ rw same refl
      | inr differ ↦ rw differ (rw differ refl)
    ]
last_of_runs-record_sample (x ∷ y ∷ []) next samples (differ, h) =
    elim (Bool-cases (same_phase y.phase next.phase)) [
      | inl same ↦ rw same (
          last_of_runs-differ x next samples
            (same_phase_trans x.phase y.phase next.phase differ same)
          ∙ rw differ refl)
      | inr other ↦ rw other (rw (differ, other) refl)
    ]
last_of_runs-record_sample (x ∷ y ∷ z ∷ queue) next samples (differ, h) = rw differ (
    ap (λ (s : List ProgressSample). x ∷ s)
      (last_of_runs-record_sample (y ∷ z ∷ queue) next samples h))

-- The samples are recorded one by one.
abbrev pub record_all : List ProgressSample → List ProgressSample → List ProgressSample
record_all queue [] = queue
record_all queue (sample ∷ samples) = record_all (record_sample queue sample) samples

record_all-Alternates :
    (queue samples : List ProgressSample) → Alternates queue → Alternates (record_all queue samples)
record_all-Alternates queue [] h = h
record_all-Alternates queue (sample ∷ samples) h =
    record_all-Alternates (record_sample queue sample) samples
      (record_sample-Alternates queue sample h)

-- Recording samples into a queue whose neighbours are of different phases leaves, of the former
-- samples and the new ones together, exactly the last of every run of samples of one phase, in
-- order, and neighbours are of different phases again.
pub record_all-last_of_runs :
    (queue samples : List ProgressSample)
    → Alternates queue
    → (record_all queue samples ≡ last_of_runs (queue ++ samples))
      × Alternates (record_all queue samples)
record_all-last_of_runs queue samples h =
    (kept queue samples h, record_all-Alternates queue samples h)
  where
    kept :
        (queue samples : List ProgressSample)
        → Alternates queue
        → record_all queue samples ≡ last_of_runs (queue ++ samples)
    kept queue [] h = sym (ap last_of_runs (append-nil queue) ∙ last_of_runs-Alternates queue h)
    kept queue (sample ∷ samples) h =
        kept (record_sample queue sample) samples (record_sample-Alternates queue sample h)
        ∙ last_of_runs-record_sample queue sample samples h
