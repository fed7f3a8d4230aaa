-- ===== src/Run/Aggregate.antt =====
-- internal/run/model/status.go: the status of a run from the statuses of its jobs.
pub mod Laws
use forgelet.Prelude.{Bool, true, false, not, ◌||◌, List, [], ◌∷◌, is, is_empty, if◌then◌else◌}
use forgelet.Run.JobStatus.{JobRunStatus, job_status_key}
use forgelet.Run.RunStatus.{WorkflowRunStatus}

-- The local variables of `AggregateRunStatus`.
pub record Seen : Type 0 where
  pub running : Bool
  pub started : Bool
  pub all_terminal : Bool
  pub any_failed : Bool
  pub any_cancelled : Bool
  pub any_succeeded : Bool
  pub any_skipped : Bool

unfoldable pub nothing_seen : Seen
nothing_seen = record {
  running = false;
  started = false;
  all_terminal = true;
  any_failed = false;
  any_cancelled = false;
  any_succeeded = false;
  any_skipped = false;
}

-- The body of the loop: the `switch` on one status.
unfoldable pub see : Seen → JobRunStatus → Seen
see v JobRunStatus.running = record v { running = true; started = true; all_terminal = false }
see v JobRunStatus.dispatched = record v {
  started = v.started || is JobRunStatus.dispatched JobRunStatus.dispatched;
  all_terminal = false;
}
see v JobRunStatus.queued = record v {
  started = v.started || is JobRunStatus.queued JobRunStatus.dispatched;
  all_terminal = false;
}
see v JobRunStatus.failed = record v { any_failed = true }
see v JobRunStatus.cancelled = record v { any_cancelled = true }
see v JobRunStatus.skipped = record v { any_skipped = true }
see v JobRunStatus.succeeded = record v { any_succeeded = true }
see v JobRunStatus.unset = v

unfoldable pub see_all : Seen → List JobRunStatus → Seen
see_all v [] = v
see_all v (s ∷ ss) = see_all (see v s) ss

-- The `switch` behind the loop.
unfoldable pub conclude : Bool → Seen → WorkflowRunStatus
conclude no_jobs v =
    if no_jobs
    then WorkflowRunStatus.queued
    else (if v.running
        then WorkflowRunStatus.running
        else (if not v.all_terminal
            then (if v.started then WorkflowRunStatus.running else WorkflowRunStatus.queued)
            else (if v.any_failed
                then WorkflowRunStatus.failed
                else (if v.any_cancelled
                    then WorkflowRunStatus.cancelled
                    else (if v.any_succeeded || v.any_skipped
                        then WorkflowRunStatus.succeeded
                        else WorkflowRunStatus.queued)))))

unfoldable pub aggregate_run_status : List JobRunStatus → WorkflowRunStatus
unfolding nothing_seen see_all conclude
aggregate_run_status jobs = conclude (is_empty jobs) (see_all nothing_seen jobs)
