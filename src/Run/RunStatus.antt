-- ===== src/Run/RunStatus.antt =====
-- internal/run/model/status.go: the status of a workflow run.
use forgelet.Prelude.{ℕ, Bool, true, false, Key, is, if◌then◌else◌, ltb}

pub data WorkflowRunStatus : Type 0 where
  queued running succeeded failed cancelled : WorkflowRunStatus

unfoldable pub WorkflowRunStatus-discrete : Discrete WorkflowRunStatus
WorkflowRunStatus-discrete = hlevel

instance abbrev pub run_status_key : Key WorkflowRunStatus
run_status_key = record { dec = WorkflowRunStatus-discrete }

unfoldable pub is_terminal : WorkflowRunStatus → Bool
is_terminal succeeded = true
is_terminal failed = true
is_terminal cancelled = true
is_terminal _ = false

unfoldable pub run_rank : WorkflowRunStatus → ℕ
run_rank queued = 0
run_rank running = 1
run_rank _ = 2

unfoldable pub can_advance_run : WorkflowRunStatus → WorkflowRunStatus → Bool
unfolding is_terminal run_rank
can_advance_run from to =
    if is from to
    then true
    else (if is_terminal from
        then false
        else (if is_terminal to then true else ltb (run_rank from) (run_rank to)))
