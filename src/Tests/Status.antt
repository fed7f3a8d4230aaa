-- ===== src/Tests/Status.antt =====
-- The status rules at concrete inputs.
use forgelet.Prelude.{◌≡◌, ◌↔◌, none, is_none, List, [], ◌∷◌, if◌then◌else◌}
use forgelet.Run.JobStatus.{JobRunStatus, transition_job}
use JobRunStatus.{queued, running, succeeded, failed}
use forgelet.Run.JobStatus.Graph.{◌⟶◌, transition_job-⟶}
use forgelet.Run.Aggregate.{aggregate_run_status}
use forgelet.Run.Aggregate.Laws.{described, aggregate_run_status-described}

abbrev jobs : List JobRunStatus
jobs = succeeded ∷ failed ∷ []

aggregate_run_status-described_example : aggregate_run_status jobs ≡ described jobs
aggregate_run_status-described_example = aggregate_run_status-described jobs

transition_job-⟶_example :
    ((transition_job running queued).1 ≡ none ↔ (running ⟶ queued))
    × ((transition_job running queued).0
        ≡ (if is_none (transition_job running queued).1 then queued else running))
transition_job-⟶_example = transition_job-⟶ running queued
