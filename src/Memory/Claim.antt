-- ===== src/Memory/Claim.antt =====
-- internal/storage/memory/store.go: `ClaimNextQueuedJob`, `dependencyStateLocked`,
-- `refreshRunLocked` and `ReleaseClaim`.
use forgelet.Prelude.{
  Text, List, [], ◌∷◌, Bool, true, false, not, ◌&&◌, if◌then◌else◌, is_empty, ltb, ◌==◌, is, Option,
  none, some, lookup, lookup_or, insert, delete, text_key, text_lt, sort, map, keys,
}
use forgelet.Run.JobStatus.{JobRunStatus, TransitionError, transition_job, job_status_key}
use forgelet.Run.RunStatus.{WorkflowRunStatus, can_advance_run, run_status_key}
use forgelet.Run.RunStatus
use forgelet.Run.Aggregate.{aggregate_run_status}
use forgelet.Run.Records.{RunId, JobRunId, Time, RunRecord, JobRunRecord}
use forgelet.Memory.State.{DurableStore, StoreError, Result, ok, err, job_at}

-- The statuses of the jobs of a run, every attempt included.
unfoldable pub statuses_of : DurableStore → RunId → List JobRunStatus
statuses_of s run_id = map (λ id. (job_at s id).status) (lookup_or [] run_id s.run_jobs)

unfoldable pub set_run_status : RunRecord → WorkflowRunStatus → Time → RunRecord
unfolding RunStatus.is_terminal
set_run_status run next now =
    if RunStatus.is_terminal next
    then record run { status = next; finished_at = some now }
    else record run { status = next }

unfoldable pub refresh_run_locked : RunId → Time → DurableStore → DurableStore
unfolding RunStatus.is_terminal can_advance_run set_run_status
refresh_run_locked run_id now s = elim (lookup run_id s.runs) [
  | none ↦ s
  | some run ↦
      let next = aggregate_run_status (statuses_of s run_id) in
      if RunStatus.is_terminal run.status
      then s
      else (if can_advance_run run.status next && not (is next run.status)
          then record s { runs = insert run_id (set_run_status run next now) s.runs }
          else s)
]

pub data DepState : Type 0 where
  ready blocked failed : DepState

-- What one status of a dependency means: go on, wait, or fail.
unfoldable pub dep_verdict : JobRunStatus → DepState
dep_verdict JobRunStatus.succeeded = ready
dep_verdict JobRunStatus.failed = failed
dep_verdict JobRunStatus.cancelled = failed
dep_verdict JobRunStatus.skipped = failed
dep_verdict _ = blocked

-- The job that a key stands for in a run; a run without an index has no keys.
unfoldable pub job_by_key : DurableStore → RunId → Text → Option JobRunId
job_by_key s run_id key = lookup key (lookup_or [] run_id s.by_job_key)

-- The loop over the keys, with the state reached so far.
unfoldable pub scan_deps : DurableStore → RunId → List Text → DepState → DepState
unfolding dep_verdict job_by_key
scan_deps s run_id [] state = state
scan_deps s run_id (key ∷ keys) state = elim (job_by_key s run_id key) [
  | none ↦ blocked
  | some id ↦ elim (dep_verdict (job_at s id).status) [
    | ready ↦ scan_deps s run_id keys state
    | failed ↦ failed
    | blocked ↦ scan_deps s run_id keys blocked
  ]
]

unfoldable pub dependency_state_locked : JobRunId → DurableStore → DepState
unfolding scan_deps
dependency_state_locked id s = elim (lookup id s.jobs) [
  | none ↦ ready
  | some job ↦
      if is_empty job.depends_on then ready else scan_deps s job.run_id job.depends_on ready
]

pub record Candidate : Type 0 where
  pub id : JobRunId
  pub at : Time

unfoldable pub older : Candidate → Candidate → Bool
unfolding text_lt
older a b = if a.at == b.at then text_lt a.id b.id else ltb a.at b.at

unfoldable pub candidates_of : DurableStore → List JobRunId → List Candidate
candidates_of s [] = []
candidates_of s (id ∷ ids) =
    let rest = candidates_of s ids in
    let job = job_at s id in
    if is job.status JobRunStatus.queued && not (lookup_or false id s.claimed)
    then record { id = id; at = job.created_at } ∷ rest
    else rest

-- The record of a job that is skipped.
abbrev pub skipped_at : JobRunStatus → Time → JobRunRecord → JobRunRecord
skipped_at next t job = record job { status = next; finished_at = some t }

-- The write for a job that `TransitionJob` lets become skipped.
mark_skipped :
    JobRunId
    → JobRunRecord
    → Time
    → JobRunStatus × Option TransitionError
    → DurableStore
    → DurableStore
mark_skipped id job t (next, none) s =
    refresh_run_locked job.run_id t (record s { jobs = insert id (skipped_at next t job) s.jobs })
mark_skipped id job t (next, some e) s = s

unfoldable pub skip_job : JobRunId → Time → DurableStore → DurableStore
unfolding mark_skipped transition_job
skip_job id t s =
    mark_skipped id (job_at s id) t (transition_job (job_at s id).status JobRunStatus.skipped) s

unfoldable pub claim : JobRunId → DurableStore → DurableStore × Result JobRunRecord
claim id s = (record s { claimed = insert id true s.claimed }, ok (job_at s id))

-- The loop over the candidates. `clock id` is the reading taken when `id` is skipped.
unfoldable pub claim_first :
    (JobRunId → Time) → List Candidate → DurableStore → DurableStore × Result JobRunRecord
unfolding claim
claim_first clock [] s = (s, err StoreError.no_queued_job)
claim_first clock (pick ∷ rest) s = elim (dependency_state_locked pick.id s) [
  | blocked ↦ claim_first clock rest s
  | failed ↦ elim (is_empty (job_at s pick.id).condition) [
    | true ↦ claim_first clock rest (skip_job pick.id (clock pick.id) s)
    | false ↦ claim pick.id s
  ]
  | ready ↦ claim pick.id s
]

unfoldable pub claim_next_queued_job :
    (JobRunId → Time) → DurableStore → DurableStore × Result JobRunRecord
unfolding claim_first sort older candidates_of
claim_next_queued_job clock s = claim_first clock (sort older (candidates_of s (keys s.jobs))) s

unfoldable pub release_claim : JobRunId → DurableStore → DurableStore
release_claim id s = record s { claimed = delete id s.claimed }
