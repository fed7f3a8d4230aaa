-- ===== src/Memory/Delivery/Operations.antt =====
-- The binding of a delivery to its run, through each operation but `CreateRun`.
use forgelet.Prelude.{
  suc, Text, ◌++◌, ◌≡◌, refl, ap, inl, inr, true, false, Bool, none, some, List, [], ◌∷◌, lookup,
  insert, lookup_or, text_key, arith, Option-cases,
}
use forgelet.Run.Records.{
  RunId, JobRunId, Time, ObservedPhase, JobRunRecord, delivery_key, job_status_from_phase,
}
use forgelet.Run.JobStatus.{JobRunStatus}
use forgelet.Run.RunStatus.{WorkflowRunStatus}
use forgelet.Memory.State.{DurableStore}
use forgelet.Memory.Claim.{claim_next_queued_job, release_claim}
use forgelet.Memory.Update.{
  ActiveObject, ack_dispatched, apply_observed, observe, observed_as, cancel_job, cancel_jobs,
  cancel_run, put_cancelled, reopen, point_key, add_attempt, next_attempt, rerequest_job,
  mark_collected,
}
use forgelet.Memory.Delivery.{
  KeepsBound, KeepsBound-refl, KeepsBound-trans, rewrite_run-KeepsBound,
  refresh_run_locked-KeepsBound, write_job-KeepsBound, claim_first-KeepsBound,
}

observe-KeepsBound :
    (r : RunId) (t : JobRunStatus × Bool) (id : JobRunId) (job : JobRunRecord) (now : Time)
    (s : DurableStore)
    → KeepsBound r s (observe t id job now s)
unfolding observe
observe-KeepsBound r (t, false) id job now s = refresh_run_locked-KeepsBound r job.run_id now s
observe-KeepsBound r (t, true) id job now s = ground (
  arith,
  KeepsBound-refl r s s refl refl,
  write_job-KeepsBound r job.run_id id (observed_as t now job) now s,
)

pub apply_observed-KeepsBound :
    (r : RunId) (id : JobRunId) (phase : ObservedPhase) (now : Time) (s : DurableStore)
    → KeepsBound r s (apply_observed id phase now s).0
unfolding apply_observed
apply_observed-KeepsBound r id phase now s = elim (Option-cases (lookup id s.jobs)) [
  | inl e ↦ rw (e, apply_observed) (KeepsBound-refl r s s refl refl)
  | inr (job, e) ↦
      let o = observe-KeepsBound r (job_status_from_phase phase) id job now s in
      rw (e, apply_observed) (ground (arith, KeepsBound-refl r s s refl refl, o))
]

cancel_job-tables :
    (id : JobRunId) (now : Time) (s : DurableStore)
    → ((cancel_job id now s).deliveries ≡ s.deliveries) × ((cancel_job id now s).runs ≡ s.runs)
unfolding cancel_job
cancel_job-tables id now s = ground arith

cancel_jobs-tables :
    (ids : List JobRunId) (now : Time) (s : DurableStore)
    → ((cancel_jobs ids now s).deliveries ≡ s.deliveries) × ((cancel_jobs ids now s).runs ≡ s.runs)
unfolding cancel_jobs
cancel_jobs-tables [] now s = (refl, refl)
cancel_jobs-tables (id ∷ ids) now s =
    ground (arith, cancel_job-tables id now s, cancel_jobs-tables ids now (cancel_job id now s))

pub cancel_run-KeepsBound :
    (r id : RunId) (now : Time) (s : DurableStore) → KeepsBound r s (cancel_run id now s).0
unfolding cancel_run put_cancelled
cancel_run-KeepsBound r id now s = elim (Option-cases (lookup id s.runs)) [
  | inl e ↦ rw (e, cancel_run) (KeepsBound-refl r s s refl refl)
  | inr (a, e) ↦
      let u = cancel_jobs (lookup_or [] id s.run_jobs) now s in
      let (d, q) = cancel_jobs-tables (lookup_or [] id s.run_jobs) now s in
      let b = record a { status = WorkflowRunStatus.cancelled; finished_at = some now } in
      let wrote =
        rewrite_run-KeepsBound r id s (put_cancelled id a now u) a b e refl d
          (ap (insert id b) q) in
      rw (e, cancel_run) (ground (arith, KeepsBound-refl r s s refl refl, wrote))
]

reopen-KeepsBound : (r id : RunId) (s : DurableStore) → KeepsBound r s (reopen id s)
unfolding reopen
reopen-KeepsBound r id s = elim (Option-cases (lookup id s.runs)) [
  | inl e ↦ rw (e, reopen) (KeepsBound-refl r s s refl refl)
  | inr (a, e) ↦
      let b = record a { status = WorkflowRunStatus.queued; finished_at = none } in
      let wrote =
        rewrite_run-KeepsBound r id s (record s { runs = insert id b s.runs }) a b e refl refl
          refl in
      rw (e, reopen) (ground (arith, KeepsBound-refl r s s refl refl, wrote))
]

point_key-KeepsBound :
    (r q : RunId) (key : Text) (id : JobRunId) (s : DurableStore)
    → KeepsBound r s (point_key q key id s).0
unfolding point_key
point_key-KeepsBound r q key id s = elim (Option-cases (lookup q s.by_job_key)) [
  | inl e ↦ rw (e, point_key) (KeepsBound-refl r s s refl refl)
  | inr (index, e) ↦
      let t = record s { by_job_key = insert q (insert key id index) s.by_job_key } in
      rw (e, point_key)
        (KeepsBound-trans r s t _ (KeepsBound-refl r s t refl refl) (reopen-KeepsBound r q t))
]

pub rerequest_job-KeepsBound :
    (r : RunId) (id : JobRunId) (now : Time) (s : DurableStore)
    → KeepsBound r s (rerequest_job id now s).0
unfolding rerequest_job add_attempt
rerequest_job-KeepsBound r id now s = elim (Option-cases (lookup id s.jobs)) [
  | inl e ↦ rw (e, rerequest_job) (KeepsBound-refl r s s refl refl)
  | inr (orig, e) ↦
      let new_id = s.ids.mint s.ids.drawn in
      let t = record s {
        ids = record { mint = s.ids.mint; drawn = suc s.ids.drawn };
        jobs = insert new_id (next_attempt orig new_id now) s.jobs;
        run_jobs =
            insert orig.run_id (lookup_or [] orig.run_id s.run_jobs ++ new_id ∷ []) s.run_jobs;
      } in
      let added =
        KeepsBound-trans r s t _ (KeepsBound-refl r s t refl refl)
          (point_key-KeepsBound r orig.run_id orig.job_key new_id t) in
      rw (e, rerequest_job) (ground (arith, KeepsBound-refl r s s refl refl, added))
]

pub release_claim-KeepsBound :
    (r : RunId) (id : JobRunId) (s : DurableStore) → KeepsBound r s (release_claim id s)
unfolding release_claim
release_claim-KeepsBound r id s = KeepsBound-refl r s (release_claim id s) refl refl

pub claim_next_queued_job-KeepsBound :
    (r : RunId) (clock : JobRunId → Time) (s : DurableStore)
    → KeepsBound r s (claim_next_queued_job clock s).0
unfolding claim_next_queued_job
claim_next_queued_job-KeepsBound r clock s = claim_first-KeepsBound r clock _ s

pub ack_dispatched-KeepsBound :
    (r : RunId) (id : JobRunId) (obj : ActiveObject) (now : Time) (s : DurableStore)
    → KeepsBound r s (ack_dispatched id obj now s).0
unfolding ack_dispatched
ack_dispatched-KeepsBound r id obj now s =
    KeepsBound-refl r s (ack_dispatched id obj now s).0 (ground arith) (ground arith)

pub mark_collected-KeepsBound :
    (r : RunId) (id : JobRunId) (now : Time) (s : DurableStore)
    → KeepsBound r s (mark_collected id now s).0
unfolding mark_collected
mark_collected-KeepsBound r id now s =
    KeepsBound-refl r s (mark_collected id now s).0 (ground arith) (ground arith)
