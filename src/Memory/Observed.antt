-- ===== src/Memory/Observed.antt =====
-- `ApplyObserved`: what an observation does to the job and to the others.
use forgelet.Prelude.{
  if_pos, is, refl, ◌≡◌, true, false, Bool, some, lookup, insert, lookup-insert, text_key, arith,
  if◌then◌else◌, Bool-cases, inl, inr, ◌∙◌, ap, ite,
}
use forgelet.Run.JobStatus.{JobRunStatus, job_status_key, is_terminal, can_advance_job}
use forgelet.Run.Records.{JobRunId, Time, JobRunRecord, ObservedPhase, job_status_from_phase}
use forgelet.Memory.State.{DurableStore, ok}
use forgelet.Memory.Update.{apply_observed, observe, observed_as, stamp}
use forgelet.Memory.Progress.Operations.{refresh_run_locked-jobs}

-- The record that an observation leaves in place of the job's, by the target that it names.
abbrev pub written : JobRunStatus × Bool → Time → JobRunRecord → JobRunRecord
written (target, changes) now job =
    if changes
    then (if can_advance_job job.status target then observed_as target now job else job)
    else job

-- A table in which a key holds its own value again is read the same.
same_value :
    (s : DurableStore) (id j : JobRunId) (job : JobRunRecord)
    → lookup id s.jobs ≡ some job
    → lookup j s.jobs ≡ ite (text_key.dec id j) (some job) (lookup j s.jobs)
same_value s id j job e = ground (arith, ap (λ (k : JobRunId). lookup k s.jobs) {x = id} {y = j})

observe-lookup :
    (t : JobRunStatus × Bool) (id j : JobRunId) (job : JobRunRecord) (now : Time) (s : DurableStore)
    → lookup id s.jobs ≡ some job
    → lookup j (observe t id job now s).jobs
      ≡ ite (text_key.dec id j) (some (written t now job)) (lookup j s.jobs)
unfolding observe
observe-lookup (target, false) id j job now s e =
    rw (refresh_run_locked-jobs job.run_id now s) (same_value s id j job e)
observe-lookup (target, true) id j job now s e =
    elim (Bool-cases (can_advance_job job.status target)) [
      | inl h ↦
          let new = observed_as target now job in
          rw h (
            ap (lookup j)
              (refresh_run_locked-jobs job.run_id now (record s { jobs = insert id new s.jobs }))
            ∙ lookup-insert id j new s.jobs)
      | inr h ↦ rw h (same_value s id j job e)
    ]

-- An observation of a job that the store holds succeeds. A terminal job keeps its record.
-- An open one is rewritten as `CanAdvanceJob` allows, and no other job is touched.
pub apply_observed-jobs :
    (id j : JobRunId) (phase : ObservedPhase) (now : Time) (s : DurableStore) (job : JobRunRecord)
    → lookup id s.jobs ≡ some job
    → ((apply_observed id phase now s).1 ≡ ok tt)
      × (lookup j (apply_observed id phase now s).0.jobs ≡ (
          if is_terminal job.status
          then lookup j s.jobs
          else ite
              (text_key.dec id j)
              (some (written (job_status_from_phase phase) now job))
              (lookup j s.jobs)))
unfolding apply_observed
apply_observed-jobs id j phase now s job e =
    let seen = observe-lookup (job_status_from_phase phase) id j job now s e in
    (ground (arith), ground (arith, seen))

-- The record after one observation.
abbrev pub seen : ObservedPhase → Time → JobRunRecord → JobRunRecord
seen phase now job =
    if is_terminal job.status then job else written (job_status_from_phase phase) now job

-- What the same observation, made again, leaves of a record: a running job that is seen running
-- starts once more, and every other record stays.
unfoldable pub again : ObservedPhase → Time → JobRunRecord → JobRunRecord
again ObservedPhase.running later job =
    if is job.status JobRunStatus.running then record job { started_at = some later } else job
again phase later job = job

seen-seen :
    (phase : ObservedPhase) (now later : Time) (job : JobRunRecord)
    → seen phase later (seen phase now job) ≡ again phase later (seen phase now job)
unfolding again is_terminal job_status_from_phase can_advance_job stamp
seen-seen ObservedPhase.pending now later job = ground arith
seen-seen ObservedPhase.running now later job = ground arith
seen-seen ObservedPhase.succeeded now later job = ground arith
seen-seen ObservedPhase.failed now later job = ground arith
seen-seen ObservedPhase.skipped now later job = ground arith
seen-seen (ObservedPhase.other t) now later job = ground arith

apply_observed-seen :
    (id j : JobRunId) (phase : ObservedPhase) (now : Time) (s : DurableStore) (job : JobRunRecord)
    → lookup id s.jobs ≡ some job
    → lookup j (apply_observed id phase now s).0.jobs
      ≡ ite (text_key.dec id j) (some (seen phase now job)) (lookup j s.jobs)
apply_observed-seen id j phase now s job e =
    (apply_observed-jobs id j phase now s job e).1 ∙ (elim (Bool-cases (is_terminal job.status)) [
      | inl h ↦ rw h (same_value s id j job e)
      | inr h ↦ rw h refl
    ])

-- The same observation of a job, made twice, leaves the jobs of the store as the first one does,
-- whatever the phase and the status of the job, but for one case: a job that is running and seen
-- running has started at the second observation.
pub apply_observed-again :
    (id j : JobRunId) (phase : ObservedPhase) (now later : Time) (s : DurableStore)
    (job : JobRunRecord)
    → lookup id s.jobs ≡ some job
    → let t = (apply_observed id phase now s).0 in
      lookup j (apply_observed id phase later t).0.jobs
      ≡ ite (text_key.dec id j) (some (again phase later (seen phase now job))) (lookup j t.jobs)
apply_observed-again id j phase now later s job e =
    let t = (apply_observed id phase now s).0 in
    let here : lookup id t.jobs ≡ some (seen phase now job) =
      apply_observed-seen id id phase now s job e ∙ if_pos (text_key.dec id id) refl _ _ in
    apply_observed-seen id j phase later t (seen phase now job) here
    ∙ ap (λ x. ite (text_key.dec id j) (some x) (lookup j t.jobs)) (seen-seen phase now later job)
