-- ===== src/Memory/Cancel.antt =====
-- `CancelRun` and the jobs of its run.
use forgelet.Prelude.{
  ◌≡◌, refl, ap, false, some, none, lookup, lookup_or, lookup-insert, text_key, arith, any, ite,
  lookup-delete, ◌∷◌, [], List, if◌then◌else◌, is,
}
use forgelet.Run.JobStatus.{JobRunStatus, is_terminal, can_transition_job, transition_job}
use forgelet.Run.RunStatus.{WorkflowRunStatus, run_status_key}
use forgelet.Run.RunStatus
use forgelet.Run.Records.{RunId, JobRunId, Time, JobRunRecord, RunRecord}
use forgelet.Memory.State.{DurableStore, ok, job_at}
use forgelet.Memory.Update.{cancel_job, cancel_jobs, cancel_run, cancelled_at, put_cancelled}

-- What cancelling does to one record: an open job is cancelled, a terminal one is kept.
abbrev pub cancelled : Time → JobRunRecord → JobRunRecord
cancelled now job =
    if is_terminal job.status then job else cancelled_at JobRunStatus.cancelled now job

cancel_job-lookup :
    (id j : JobRunId) (now : Time) (s : DurableStore) (job : JobRunRecord)
    → lookup j s.jobs ≡ some job
    → lookup j (cancel_job id now s).jobs ≡ some (if is id j then cancelled now job else job)
unfolding cancel_job can_transition_job transition_job
cancel_job-lookup id j now s job e = ground (
  arith,
  lookup-insert id j (cancelled_at JobRunStatus.cancelled now (job_at s id)) s.jobs,
  ap (λ (k : JobRunId). lookup k s.jobs) {x = id} {y = j},
)

cancelled_idem :
    (now : Time) (job : JobRunRecord) → cancelled now (cancelled now job) ≡ cancelled now job
unfolding is_terminal
cancelled_idem now job = ground arith

cancel_jobs-lookup :
    (ids : List JobRunId) (j : JobRunId) (now : Time) (s : DurableStore) (job : JobRunRecord)
    → lookup j s.jobs ≡ some job
    → lookup j (cancel_jobs ids now s).jobs
      ≡ some (if any (λ id. is id j) ids then cancelled now job else job)
unfolding cancel_jobs
cancel_jobs-lookup [] j now s job e = e
cancel_jobs-lookup (id ∷ ids) j now s job e =
    let job' = if is id j then cancelled now job else job in
    let rest =
      cancel_jobs-lookup ids j now (cancel_job id now s) job'
        (cancel_job-lookup id j now s job e) in
    elim (text_key.dec id j) [
      | yes p ↦ ground (arith, cancelled_idem now job, rest)
      | no n ↦ ground (arith, rest)
    ]

cancel_job-claimed :
    (id j : JobRunId) (now : Time) (s : DurableStore)
    → lookup j (cancel_job id now s).claimed ≡ ite (text_key.dec id j) none (lookup j s.claimed)
unfolding cancel_job
cancel_job-claimed id j now s = ground (arith, lookup-delete id j s.claimed)

cancel_jobs-claimed :
    (ids : List JobRunId) (j : JobRunId) (now : Time) (s : DurableStore)
    → lookup j (cancel_jobs ids now s).claimed
      ≡ (if any (λ id. is id j) ids then none else lookup j s.claimed)
unfolding cancel_jobs
cancel_jobs-claimed [] j now s = refl
cancel_jobs-claimed (id ∷ ids) j now s =
    ground
      (arith, cancel_job-claimed id j now s, cancel_jobs-claimed ids j now (cancel_job id now s))

-- Cancelling an open run succeeds and marks it cancelled. Of the jobs it lists, the open ones
-- are cancelled, the terminal ones kept, and the claims dropped; any other job and claim is
-- kept. Cancelling the run again, at any time, changes nothing.
pub cancel_run-jobs :
    (id : RunId) (j : JobRunId) (now now' : Time) (s : DurableStore) (run : RunRecord)
    (job : JobRunRecord)
    → lookup id s.runs ≡ some run
    → RunStatus.is_terminal run.status ≡ false
    → lookup j s.jobs ≡ some job
    → let (t, r) = cancel_run id now s in
      let listed = any (λ i. is i j) (lookup_or [] id s.run_jobs) in
      (r ≡ ok tt)
      × (lookup id t.runs
          ≡ some (record run { status = WorkflowRunStatus.cancelled; finished_at = some now }))
      × (lookup j t.jobs ≡ some (if listed then cancelled now job else job))
      × (lookup j t.claimed ≡ (if listed then none else lookup j s.claimed))
      × (cancel_run id now' t ≡ (t, ok tt))
unfolding cancel_run put_cancelled RunStatus.is_terminal
cancel_run-jobs id j now now' s run job e o h =
    let ids = lookup_or [] id s.run_jobs in
    let u = cancel_jobs ids now s in
    let run' = record run { status = WorkflowRunStatus.cancelled; finished_at = some now } in
    let again = lookup-insert id id run' u.runs in
    (
      ground arith,
      ground (arith, again),
      ground (arith, cancel_jobs-lookup ids j now s job h),
      ground (arith, cancel_jobs-claimed ids j now s),
      ground (arith, again),
    )
