-- ===== src/Examples/Jobs.antt =====
-- The theorems on jobs and their progress at concrete reports and samples.
use csaf_trove.Base.{ℕ, ◌≡◌, refl, Option, none, some, List, [], ◌∷◌, ◌++◌}
use csaf_trove.Base.Text.{bytes, text_eq}
use csaf_trove.Base.Map
use csaf_trove.Jobs.{JobStatus, PipelinePhase, discover, validate, get_job}
use csaf_trove.Jobs.History.{
  work, distribution, synced, report_all, report_all-history, report_all-frame, IsTracked, history,
}
use csaf_trove.Runner.Progress.{ProgressSample, sampled, ticked, run, publish}
use csaf_trove.Runner.Progress.Laws.{view, run_coalesces}
use csaf_trove.Runner.Progress.Runs.{Alternates, last_of_runs, record_all, record_all-last_of_runs}
use csaf_trove.Examples.Data.{domain, job, registry}

abbrev sample : Option PipelinePhase → ℕ → ProgressSample
sample phase current = record { phase = phase; current = current; total = 9 }

report_all-history_example :
    (new : JobStatus) × (get_job domain
        (report_all domain (distribution 4 2 ∷ synced ∷ work 7 (some validate) 0 0 ∷ []) registry)
      ≡ some new)
    × IsTracked new
    × ((more : List PipelinePhase) × (history new ≡ (discover ∷ []) ++ more))
unfolding get_job text_eq Map.get
report_all-history_example =
    report_all-history domain (distribution 4 2 ∷ synced ∷ work 7 (some validate) 0 0 ∷ []) registry
      job refl (discover, refl, tt)

report_all-frame_example :
    (get_job (bytes "other.org") (report_all domain (synced ∷ []) registry)
      ≡ get_job (bytes "other.org") registry)
    × ((report_all domain (synced ∷ []) registry).notified ≡ 1)
unfolding text_eq
report_all-frame_example = report_all-frame domain (bytes "other.org") (synced ∷ []) registry refl

run_coalesces_example :
    view domain (
      run domain 9
        (sampled (sample none 1)
          ∷ sampled (sample none 2)
          ∷ ticked 8
          ∷ sampled (sample (some validate) 3)
          ∷ [])
        []
        registry)
    ≡ view domain
        (publish 7 domain (sample none 1 ∷ sample none 2 ∷ sample (some validate) 3 ∷ []) registry)
run_coalesces_example =
    run_coalesces domain 9 7
      (sampled (sample none 1)
        ∷ sampled (sample none 2)
        ∷ ticked 8
        ∷ sampled (sample (some validate) 3)
        ∷ [])
      [] registry

abbrev reported : List ProgressSample
reported = sample none 1 ∷ sample none 2 ∷ sample (some validate) 3 ∷ sample (some validate) 4 ∷ []

record_all-last_of_runs_example :
    (record_all (sample (some validate) 0 ∷ []) reported
      ≡ last_of_runs (sample (some validate) 0 ∷ reported))
    × Alternates (record_all (sample (some validate) 0 ∷ []) reported)
record_all-last_of_runs_example =
    record_all-last_of_runs (sample (some validate) 0 ∷ []) reported tt
