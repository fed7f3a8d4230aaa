-- ===== src/Run/JobStatus.antt =====
-- internal/run/model/status.go: the status of a job run.
pub mod Graph
use forgelet.Prelude.{ℕ, Bool, true, false, ◌||◌, Option, none, some, Key, is, if◌then◌else◌, ltb}

-- `unset` is the empty string, the zero value of the Go type.
pub data JobRunStatus : Type 0 where
  unset queued dispatched running succeeded failed cancelled skipped : JobRunStatus

unfoldable pub JobRunStatus-discrete : Discrete JobRunStatus
JobRunStatus-discrete = hlevel

instance abbrev pub job_status_key : Key JobRunStatus
job_status_key = record { dec = JobRunStatus-discrete }

unfoldable pub is_terminal : JobRunStatus → Bool
is_terminal succeeded = true
is_terminal failed = true
is_terminal cancelled = true
is_terminal skipped = true
is_terminal _ = false

unfoldable pub job_rank : JobRunStatus → ℕ
job_rank queued = 0
job_rank dispatched = 1
job_rank running = 2
job_rank _ = 3

can_reach : JobRunStatus → JobRunStatus → Bool
can_reach from cancelled = true
can_reach from skipped = true
can_reach from dispatched = is from queued
can_reach from running = is from dispatched || is from running
can_reach from succeeded = is from dispatched || is from running
can_reach from failed = is from dispatched || is from running
can_reach from _ = false

unfoldable pub can_transition_job : JobRunStatus → JobRunStatus → Bool
unfolding is_terminal can_reach
can_transition_job from to = if is_terminal from then false else can_reach from to

unfoldable pub can_advance_job : JobRunStatus → JobRunStatus → Bool
unfolding job_rank
can_advance_job from to =
    if is to cancelled
    then false
    else (if is from to then true else ltb (job_rank from) (job_rank to))

-- `TransitionError`, with the two ends.
pub record TransitionError : Type 0 where
  pub from : JobRunStatus
  pub to : JobRunStatus

-- The returned status, and the error if the transition is refused.
unfoldable pub transition_job : JobRunStatus → JobRunStatus → JobRunStatus × Option TransitionError
transition_job from to =
    if can_transition_job from to
    then (to, none)
    else (from, some (record { from = from; to = to }))
