-- ===== src/Memory/Update.antt =====
-- internal/storage/memory/store.go: the operations that move a job or a run.
use forgelet.Prelude.{
  ℕ, ◌+◌, Text, List, [], ◌∷◌, ◌++◌, Bool, true, false, not, ◌&&◌, if◌then◌else◌, is_empty, ◌==◌,
  is, Option, none, some, lookup, lookup_or, insert, delete, text_key,
}
use forgelet.Run.JobStatus.{
  JobRunStatus, TransitionError, transition_job, can_advance_job, job_status_key,
}
use forgelet.Run.JobStatus
use forgelet.Run.RunStatus.{WorkflowRunStatus, run_status_key}
use forgelet.Run.RunStatus
use forgelet.Run.Records.{
  RunId, JobRunId, Time, RunRecord, JobRunRecord, ObservedPhase, job_status_from_phase,
}
use forgelet.Memory.State.{DurableStore, StoreError, Result, ok, err, job_at, new_id}
use forgelet.Memory.Claim.{refresh_run_locked}

-- internal/run/scheduler/port.go: what identifies the Kubernetes resource of a job run.
pub record ActiveObject : Type 0 where
  pub name : Text
  pub uid : Text

-- The record that `AckDispatched` writes.
abbrev pub dispatched_with : ActiveObject → Time → JobRunRecord → JobRunRecord
dispatched_with obj now job = record job {
  status = JobRunStatus.dispatched;
  active_name = obj.name;
  active_uid = obj.uid;
  dispatched_at = some now;
}

-- The write of `AckDispatched`, and the end of the claim.
unfoldable pub put_dispatched :
    JobRunId → JobRunRecord → ActiveObject → Time → DurableStore → DurableStore
put_dispatched id job obj now s = record s {
  jobs = insert id (dispatched_with obj now job) s.jobs;
  claimed = delete id s.claimed;
}

ack_status :
    JobRunStatus
    → JobRunId
    → JobRunRecord
    → ActiveObject
    → Time
    → DurableStore
    → DurableStore × Result (Unit {0})
unfolding put_dispatched
ack_status JobRunStatus.dispatched id job obj now s =
    if not (is_empty job.active_name) && not (is job.active_name obj.name)
    then (s, err (StoreError.already_dispatched id job.active_name obj.name))
    else (put_dispatched id job obj now s, ok tt)
ack_status JobRunStatus.queued id job obj now s = (put_dispatched id job obj now s, ok tt)
ack_status other id job obj now s = (s, err (StoreError.job_not_dispatchable id other))

unfoldable pub ack_dispatched :
    JobRunId → ActiveObject → Time → DurableStore → DurableStore × Result (Unit {0})
unfolding ack_status
ack_dispatched id obj now s = elim (lookup id s.jobs) [
  | none ↦ (s, err StoreError.job_run_not_found)
  | some job ↦ ack_status job.status id job obj now s
]

-- `orTime`
unfoldable pub or_time : Option Time → Time → Option Time
or_time none fallback = some fallback
or_time (some t) fallback = some t

-- The inner `switch` of `ApplyObserved`, after the status was set.
unfoldable pub stamp : JobRunStatus → Time → JobRunRecord → JobRunRecord
unfolding or_time
stamp JobRunStatus.running now job = record job { started_at = some now }
stamp JobRunStatus.succeeded now job = record job {
  started_at = or_time job.started_at now;
  finished_at = some now;
}
stamp JobRunStatus.failed now job = record job {
  started_at = or_time job.started_at now;
  finished_at = some now;
}
stamp JobRunStatus.skipped now job = record job {
  started_at = or_time job.started_at now;
  finished_at = some now;
}
stamp _ now job = job

-- The record that `ApplyObserved` writes.
abbrev pub observed_as : JobRunStatus → Time → JobRunRecord → JobRunRecord
observed_as target now job = stamp target now (record job { status = target })

unfoldable pub observe :
    JobRunStatus × Bool → JobRunId → JobRunRecord → Time → DurableStore → DurableStore
unfolding stamp can_advance_job
observe (target, false) id job now s = refresh_run_locked job.run_id now s
observe (target, true) id job now s =
    if can_advance_job job.status target
    then refresh_run_locked job.run_id now
        (record s { jobs = insert id (observed_as target now job) s.jobs })
    else s

unfoldable pub apply_observed :
    JobRunId → ObservedPhase → Time → DurableStore → DurableStore × Result (Unit {0})
unfolding JobStatus.is_terminal observe job_status_from_phase
apply_observed id phase now s = elim (lookup id s.jobs) [
  | none ↦ (s, err StoreError.job_run_not_found)
  | some job ↦
      if JobStatus.is_terminal job.status
      then (s, ok tt)
      else (observe (job_status_from_phase phase) id job now s, ok tt)
]

-- The record that `CancelRun` writes.
abbrev pub cancelled_at : JobRunStatus → Time → JobRunRecord → JobRunRecord
cancelled_at next now job = record job { status = next; finished_at = some now }

mark_cancelled :
    JobRunId
    → JobRunRecord
    → Time
    → JobRunStatus × Option TransitionError
    → DurableStore
    → DurableStore
mark_cancelled id job now (next, none) s = record s {
  jobs = insert id (cancelled_at next now job) s.jobs;
}
mark_cancelled id job now (next, some e) s = s

-- One round of the loop of `CancelRun`.
unfoldable pub cancel_job : JobRunId → Time → DurableStore → DurableStore
unfolding mark_cancelled transition_job
cancel_job id now s =
    let job = job_at s id in
    let s' = mark_cancelled id job now (transition_job job.status JobRunStatus.cancelled) s in
    record s' { claimed = delete id s'.claimed }

unfoldable pub cancel_jobs : List JobRunId → Time → DurableStore → DurableStore
cancel_jobs [] now s = s
cancel_jobs (id ∷ ids) now s = cancel_jobs ids now (cancel_job id now s)

unfoldable pub put_cancelled : RunId → RunRecord → Time → DurableStore → DurableStore
put_cancelled id run now s = record s {
  runs =
      insert id (record run { status = WorkflowRunStatus.cancelled; finished_at = some now })
        s.runs;
}

unfoldable pub cancel_run : RunId → Time → DurableStore → DurableStore × Result (Unit {0})
unfolding RunStatus.is_terminal cancel_jobs put_cancelled
cancel_run id now s = elim (lookup id s.runs) [
  | none ↦ (s, err StoreError.run_not_found)
  | some run ↦
      if RunStatus.is_terminal run.status
      then (if is run.status WorkflowRunStatus.cancelled
          then (s, ok tt)
          else (s, err (StoreError.already_terminal id run.status)))
      else (put_cancelled id run now (cancel_jobs (lookup_or [] id s.run_jobs) now s), ok tt)
]

-- The newer attempt of a job among the jobs of its run.
unfoldable pub find_attempt : DurableStore → Text → ℕ → List JobRunId → Option JobRunId
find_attempt s key attempt [] = none
find_attempt s key attempt (id ∷ ids) =
    let rest = find_attempt s key attempt ids in
    let j = job_at s id in if is j.job_key key && j.attempt == attempt then some j.id else rest

unfoldable pub next_attempt : JobRunRecord → JobRunId → Time → JobRunRecord
next_attempt orig new_id now = record {
  id = new_id;
  run_id = orig.run_id;
  job_key = orig.job_key;
  runner_class = orig.runner_class;
  depends_on = orig.depends_on;
  matrix = orig.matrix;
  plan_digest = orig.plan_digest;
  condition = orig.condition;
  status = JobRunStatus.queued;
  attempt = orig.attempt + 1;
  active_name = [];
  active_uid = [];
  created_at = now;
  dispatched_at = none;
  started_at = none;
  finished_at = none;
  active_collected_at = none;
}

-- A run that is over is opened again.
unfoldable pub reopen : RunId → DurableStore → DurableStore
unfolding RunStatus.is_terminal
reopen id s = elim (lookup id s.runs) [
  | none ↦ s
  | some run ↦
      if RunStatus.is_terminal run.status
      then record s {
        runs =
            insert id (record run { status = WorkflowRunStatus.queued; finished_at = none }) s.runs;
      }
      else s
]

-- The write to the key index: a nil map panics, after the job was added.
unfoldable pub point_key : RunId → Text → JobRunId → DurableStore → DurableStore × Result JobRunId
unfolding reopen
point_key run_id key id s = elim (lookup run_id s.by_job_key) [
  | none ↦ (s, err StoreError.nil_map)
  | some index ↦ (
    reopen run_id (record s { by_job_key = insert run_id (insert key id index) s.by_job_key }),
    ok id,
  )
]

unfoldable pub add_attempt : JobRunRecord → Time → DurableStore → DurableStore × Result JobRunId
unfolding new_id next_attempt point_key
add_attempt orig now s =
    let (id, s') = new_id s in
    point_key orig.run_id orig.job_key id (record s' {
      jobs = insert id (next_attempt orig id now) s'.jobs;
      run_jobs = insert orig.run_id (lookup_or [] orig.run_id s'.run_jobs ++ id ∷ []) s'.run_jobs;
    })

unfoldable pub rerequest_job : JobRunId → Time → DurableStore → DurableStore × Result JobRunId
unfolding find_attempt add_attempt
rerequest_job id now s = elim (lookup id s.jobs) [
  | none ↦ (s, err StoreError.job_run_not_found)
  | some orig ↦
      elim (find_attempt s orig.job_key (orig.attempt + 1) (lookup_or [] orig.run_id s.run_jobs)) [
        | some newer ↦ (s, ok newer)
        | none ↦ add_attempt orig now s
      ]
]

-- The record that `MarkCollected` writes.
abbrev pub collected_at : Time → JobRunRecord → JobRunRecord
collected_at now job = record job { active_collected_at = some now }

unfoldable pub mark_collected : JobRunId → Time → DurableStore → DurableStore × Result (Unit {0})
mark_collected id now s = elim (lookup id s.jobs) [
  | none ↦ (s, err StoreError.job_run_not_found)
  | some job ↦ elim job.active_collected_at [
    | none ↦ (record s { jobs = insert id (collected_at now job) s.jobs }, ok tt)
    | some t ↦ (s, ok tt)
  ]
]
