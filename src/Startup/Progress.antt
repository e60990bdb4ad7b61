-- ===== src/Startup/Progress.antt =====
-- The start lists its tasks in order, is ready only at its end, and restores the latest jobs.
use mathlib.Core.List.{append_assoc, append-nil}
use csaf_trove.Base.{
  ℕ, ◌≡◌, refl, ◌∙◌, sym, true, false, Option, none, some, List, [], ◌∷◌, ◌++◌, if◌then◌else◌,
  or_option,
}
use csaf_trove.Base.Text.{Text, text_eq}
use csaf_trove.Base.Map
use csaf_trove.Base.Map.{Map}
use csaf_trove.Jobs.{JobStatus, Timestamp}
use csaf_trove.Runner.World.{SyncState}
use csaf_trove.Startup.{StartupStatus, initial, begin, advance_task, finish, extend, restored_job}

-- The calls of the tasks.
pub data Step : Type 0 where
  begun : Text → Step
  advanced : ℕ → ℕ → Step

abbrev pub steps : List Step → StartupStatus → StartupStatus
unfolding begin advance_task
steps [] s = s
steps (begun task ∷ rest) s = steps rest (begin task s)
steps (advanced current total ∷ rest) s = steps rest (advance_task current total s)

abbrev pub tasks : List Step → List Text
tasks [] = []
tasks (begun task ∷ rest) = task ∷ tasks rest
tasks (advanced current total ∷ rest) = tasks rest

steps-tasks :
    (rest : List Step) (s : StartupStatus)
    → ((steps rest s).ready ≡ s.ready)
      × (extend (steps rest s).completed (steps rest s).task
          ≡ extend s.completed s.task ++ tasks rest)
unfolding begin advance_task
steps-tasks [] s = (refl, sym (append-nil _))
steps-tasks (begun task ∷ rest) s =
    let (same, done) = steps-tasks rest (begin task s) in
    (same, done ∙ append_assoc (extend s.completed s.task) (task ∷ []) (tasks rest))
steps-tasks (advanced current total ∷ rest) s = steps-tasks rest (advance_task current total s)

-- Over any sequence of tasks and of progress within them the start is not ready, and the tasks
-- finished and running are those begun, in order; finishing makes it ready, with all of them
-- completed and none running.
pub finish-steps :
    (rest : List Step)
    → let s = steps rest initial in
      (s.ready ≡ false)
      × (extend s.completed s.task ≡ tasks rest)
      × ((finish s).ready ≡ true)
      × ((finish s).completed ≡ tasks rest)
      × ((finish s).task ≡ none)
unfolding finish initial
finish-steps rest = let (same, done) = steps-tasks rest initial in (same, done, refl, done, refl)

abbrev pub synced : SyncState → Option Timestamp → Option (SyncState × Timestamp)
synced s none = none
synced s (some t) = some (s, t)

-- The last one of a provider's states that has had a successful sync.
abbrev pub last_state : Text → List SyncState → Option (SyncState × Timestamp)
last_state domain [] = none
last_state domain (ss ∷ sss) =
    or_option (last_state domain sss)
      (if text_eq ss.domain domain then synced ss ss.last_sync else none)

abbrev pub restored_or : ℕ → Option (SyncState × Timestamp) → Option JobStatus → Option JobStatus
unfolding restored_job
restored_or duration none job = job
restored_or duration (some (ss, t)) job = some (restored_job ss t duration)
