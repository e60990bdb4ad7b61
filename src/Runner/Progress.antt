-- ===== src/Runner/Progress.antt =====
-- `BlockingProgress` of server/src/scheduler/runner.rs: samples of blocking work that are merged
-- in a queue and published to the status map at intervals.
pub mod Laws
pub mod Runs
use csaf_trove.Base.{ℕ, Bool, Option, none, some, List, [], ◌∷◌, ◌++◌, if◌then◌else◌}
use csaf_trove.Base.Text.{Text}
use csaf_trove.Jobs.{PipelinePhase, Registry, Timestamp, same_phase, set_phase_work}

pub record ProgressSample : Type 0 where
  pub phase : Option PipelinePhase
  pub current : ℕ
  pub total : ℕ

-- `record`: the last sample is replaced if it is of the same phase.
unfoldable pub record_sample : List ProgressSample → ProgressSample → List ProgressSample
unfolding same_phase
record_sample [] next = next ∷ []
record_sample (last ∷ []) next =
    if same_phase last.phase next.phase then next ∷ [] else last ∷ next ∷ []
record_sample (first ∷ second ∷ samples) next = first ∷ record_sample (second ∷ samples) next

-- The callback of `callback`, for work whose phase is published already.
unfoldable pub callback : List ProgressSample → ℕ → ℕ → List ProgressSample
unfolding record_sample
callback samples current total =
    record_sample samples (record { phase = none; current = current; total = total })

-- The callback of `stage_callback`.
unfoldable pub stage_callback : List ProgressSample → PipelinePhase → ℕ → ℕ → List ProgressSample
unfolding record_sample
stage_callback samples phase current total =
    record_sample samples (record { phase = some phase; current = current; total = total })

unfoldable pub publish_sample : Timestamp → Text → ProgressSample → Registry → Registry
unfolding set_phase_work
publish_sample now domain sample =
    set_phase_work now domain sample.phase sample.current sample.total

-- `publish`, whose drained queue is empty afterwards.
unfoldable pub publish : Timestamp → Text → List ProgressSample → Registry → Registry
unfolding publish_sample
publish now domain [] r = r
publish now domain (sample ∷ samples) r =
    publish now domain samples (publish_sample now domain sample r)

-- What happens around `run` before the blocking work returns: the work reports a sample, or the
-- timer fires. `now` is the clock at that point.
pub data Event : Type 0 where
  sampled : ProgressSample → Event
  ticked : Timestamp → Event

-- The loop of `run`, over the queue and the status map. `finished` is the clock at its end, when
-- the result is there and what is left in the queue is published.
unfoldable pub run : Text → Timestamp → List Event → List ProgressSample → Registry → Registry
unfolding record_sample publish
run domain finished [] samples r = publish finished domain samples r
run domain finished (sampled sample ∷ events) samples r =
    run domain finished events (record_sample samples sample) r
run domain finished (ticked now ∷ events) samples r =
    run domain finished events [] (publish now domain samples r)
