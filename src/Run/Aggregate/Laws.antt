-- ===== src/Run/Aggregate/Laws.antt =====
-- The aggregate of a run, and a description by which statuses occur.
use forgelet.Prelude.{
  ◌≡◌, ◌∙◌, Bool, false, ◌||◌, List, [], ◌∷◌, is, any, is_empty, if◌then◌else◌, arith,
}
use forgelet.Run.JobStatus.{JobRunStatus, job_status_key}
use forgelet.Run.RunStatus.{WorkflowRunStatus}
use forgelet.Run.Aggregate.{Seen, see, see_all, nothing_seen, conclude, aggregate_run_status}

-- Whether some job has the status.
abbrev pub has : JobRunStatus → List JobRunStatus → Bool
has s = any (is s)

-- The description: an open job decides first, then the worst end.
abbrev pub described : List JobRunStatus → WorkflowRunStatus
described jobs =
    if has JobRunStatus.running jobs || has JobRunStatus.dispatched jobs
    then WorkflowRunStatus.running
    else (if has JobRunStatus.queued jobs
        then WorkflowRunStatus.queued
        else (if has JobRunStatus.failed jobs
            then WorkflowRunStatus.failed
            else (if has JobRunStatus.cancelled jobs
                then WorkflowRunStatus.cancelled
                else (if has JobRunStatus.succeeded jobs || has JobRunStatus.skipped jobs
                    then WorkflowRunStatus.succeeded
                    else WorkflowRunStatus.queued))))

module _ (v : Seen) where
  abbrev merged : List JobRunStatus → Seen
  merged jobs = record {
    running = v.running || has JobRunStatus.running jobs;
    started = v.started || (has JobRunStatus.running jobs || has JobRunStatus.dispatched jobs);
    all_terminal =
        if has JobRunStatus.running jobs
          || (has JobRunStatus.dispatched jobs || has JobRunStatus.queued jobs)
        then false
        else v.all_terminal;
    any_failed = v.any_failed || has JobRunStatus.failed jobs;
    any_cancelled = v.any_cancelled || has JobRunStatus.cancelled jobs;
    any_succeeded = v.any_succeeded || has JobRunStatus.succeeded jobs;
    any_skipped = v.any_skipped || has JobRunStatus.skipped jobs;
  }

see-merged :
    (v : Seen) (s : JobRunStatus) (jobs : List JobRunStatus)
    → merged (see v s) jobs ≡ merged v (s ∷ jobs)
unfolding see
see-merged v JobRunStatus.queued jobs = ground arith
see-merged v _ jobs = ground arith

see_all-merged : (v : Seen) (jobs : List JobRunStatus) → see_all v jobs ≡ merged v jobs
unfolding see_all
see_all-merged v [] = ground arith
see_all-merged v (s ∷ jobs) = see_all-merged (see v s) jobs ∙ see-merged v s jobs

conclude-described :
    (jobs : List JobRunStatus)
    → conclude (is_empty jobs) (merged nothing_seen jobs) ≡ described jobs
unfolding conclude nothing_seen
conclude-described [] = ground arith
conclude-described (s ∷ jobs) = ground arith

-- `AggregateRunStatus` computes the description, for every list of statuses.
pub aggregate_run_status-described :
    (jobs : List JobRunStatus) → aggregate_run_status jobs ≡ described jobs
unfolding aggregate_run_status
aggregate_run_status-described jobs =
    rw (see_all-merged nothing_seen jobs) (conclude-described jobs)
