-- ===== src/Memory/Progress/Operations.antt =====
-- The operations on a job that exists, and the order of its statuses.
use forgelet.Prelude.{
  All, map, ◌≡◌, ◌≤◌, inl, inr, true, false, Bool, Map, some, List, [], ◌∷◌, lookup, insert,
  lookup_or, text_key, arith, Bool-cases, Option-cases, if◌then◌else◌,
}
use forgelet.Run.JobStatus.{JobRunStatus, is_terminal, job_rank, transition_job, can_transition_job}
use forgelet.Run.JobStatus.{can_advance_job}
use forgelet.Run.Records.{RunId, JobRunId, Time, JobRunRecord, ObservedPhase, job_status_from_phase}
use forgelet.Memory.State.{DurableStore, job_at}
use forgelet.Memory.Claim.{refresh_run_locked, skip_job, skipped_at, claim_first, Candidate}
use forgelet.Memory.Update.{
  ActiveObject, ack_dispatched, apply_observed, cancel_job, cancel_jobs, cancel_run, put_cancelled,
  mark_collected, dispatched_with, observed_as, observe, stamp, cancelled_at, collected_at,
}
use forgelet.Memory.Progress.{
  Forward, Evolves, Evolves-refl, Evolves-trans, Evolves-Grows, insert-Evolves, Present,
  Grows-Present,
}

pub refresh_run_locked-jobs :
    (r : RunId) (now : Time) (s : DurableStore) → (refresh_run_locked r now s).jobs ≡ s.jobs
unfolding refresh_run_locked
refresh_run_locked-jobs r now s = ground arith

-- A legal transition is a step forward.
pub can_transition_job-Forward :
    (a b : JobRunStatus)
    → can_transition_job a b ≡ true
    → (job_rank a ≤ job_rank b) × (is_terminal a ≡ false)
unfolding can_transition_job job_rank
can_transition_job-Forward a b h = ground arith

skip_job-jobs :
    (id : JobRunId) (t : Time) (s : DurableStore)
    → (skip_job id t s).jobs ≡ (
        if can_transition_job (job_at s id).status JobRunStatus.skipped
        then insert id (skipped_at JobRunStatus.skipped t (job_at s id)) s.jobs
        else s.jobs)
unfolding skip_job
skip_job-jobs id t s =
    elim (Bool-cases (can_transition_job (job_at s id).status JobRunStatus.skipped)) [
      | inl e ↦ rw (e, skip_job, transition_job) (refresh_run_locked-jobs (job_at s id).run_id t _)
      | inr e ↦ rw (e, skip_job, transition_job)
    ]

pub skip_job-Evolves :
    (id : JobRunId) (t : Time) (s : DurableStore)
    → Present s.jobs id
    → Evolves s.jobs (skip_job id t s).jobs
skip_job-Evolves id t s (a, h) =
    elim (Bool-cases (can_transition_job (job_at s id).status JobRunStatus.skipped)) [
      | inl e ↦
          rw (skip_job-jobs id t s, e)
            (insert-Evolves s.jobs id a _ h
              (ground (arith, can_transition_job-Forward a.status JobRunStatus.skipped)))
      | inr e ↦ rw (skip_job-jobs id t s, e) (Evolves-refl s.jobs)
    ]

abbrev pub AllPresent : Map JobRunId JobRunRecord → List JobRunId → Type 0
AllPresent m = All (Present m)

pub Evolves-AllPresent :
    (m n : Map JobRunId JobRunRecord) (ids : List JobRunId)
    → Evolves m n
    → AllPresent m ids
    → AllPresent n ids
Evolves-AllPresent m n [] g h = tt
Evolves-AllPresent m n (id ∷ ids) g h =
    (Grows-Present m n id (Evolves-Grows m n g) h.0, Evolves-AllPresent m n ids g h.1)

abbrev pub ids_of : List Candidate → List JobRunId
ids_of = map (λ c. c.id)

pub claim_first-Evolves :
    (clock : JobRunId → Time) (cs : List Candidate) (s : DurableStore)
    → AllPresent s.jobs (ids_of cs)
    → Evolves s.jobs (claim_first clock cs s).0.jobs
unfolding claim_first
claim_first-Evolves clock [] s h = Evolves-refl s.jobs
claim_first-Evolves clock (c ∷ cs) s h =
    let skip = skip_job-Evolves c.id (clock c.id) s h.0 in
    ground (
      arith,
      Evolves-refl s.jobs,
      claim_first-Evolves clock cs s h.1,
      Evolves-trans s.jobs _ _ skip (
          claim_first-Evolves clock cs (skip_job c.id (clock c.id) s)
            (Evolves-AllPresent s.jobs _ (ids_of cs) skip h.1)),
    )

pub ack_dispatched-Evolves :
    (id : JobRunId) (obj : ActiveObject) (now : Time) (s : DurableStore)
    → Evolves s.jobs (ack_dispatched id obj now s).0.jobs
unfolding ack_dispatched job_rank is_terminal
ack_dispatched-Evolves id obj now s = elim (Option-cases (lookup id s.jobs)) [
  | inl e ↦ rw (e, ack_dispatched) (Evolves-refl s.jobs)
  | inr (job, e) ↦
      rw (e, ack_dispatched)
        (ground (
          arith,
          Evolves-refl s.jobs,
          insert-Evolves s.jobs id job (dispatched_with obj now job) e,
        ))
]

can_advance_job-Forward :
    (a b : JobRunStatus)
    → can_advance_job a b ≡ true
    → is_terminal a ≡ false
    → job_rank a ≤ job_rank b
unfolding can_advance_job
can_advance_job-Forward a b h k = ground arith

stamp-keeps :
    (t : JobRunStatus) (now : Time) (j : JobRunRecord)
    → ((stamp t now j).status ≡ j.status)
      × ((stamp t now j).id ≡ j.id)
      × ((stamp t now j).run_id ≡ j.run_id)
      × ((stamp t now j).job_key ≡ j.job_key)
      × ((stamp t now j).attempt ≡ j.attempt)
unfolding stamp
stamp-keeps t now j = ground arith

observed_as-Forward :
    (t : JobRunStatus) (now : Time) (j : JobRunRecord)
    → can_advance_job j.status t ≡ true
    → is_terminal j.status ≡ false
    → Forward j (observed_as t now j)
observed_as-Forward t now j h k =
    ground (arith, stamp-keeps t now (record j { status = t }), can_advance_job-Forward j.status t)

observe-Evolves :
    (t : JobRunStatus × Bool) (id : JobRunId) (job : JobRunRecord) (now : Time) (s : DurableStore)
    → lookup id s.jobs ≡ some job
    → is_terminal job.status ≡ false
    → Evolves s.jobs (observe t id job now s).jobs
unfolding observe
observe-Evolves (t, false) id job now s e k =
    rw (refresh_run_locked-jobs job.run_id now s) (Evolves-refl s.jobs)
observe-Evolves (t, true) id job now s e k = elim (Bool-cases (can_advance_job job.status t)) [
  | inl h ↦ rw h (
      rw
        (refresh_run_locked-jobs job.run_id now
          (record s { jobs = insert id (observed_as t now job) s.jobs }))
        (insert-Evolves s.jobs id job (observed_as t now job) e
          (observed_as-Forward t now job h k)))
  | inr h ↦ rw h (Evolves-refl s.jobs)
]

pub apply_observed-Evolves :
    (id : JobRunId) (phase : ObservedPhase) (now : Time) (s : DurableStore)
    → Evolves s.jobs (apply_observed id phase now s).0.jobs
unfolding apply_observed
apply_observed-Evolves id phase now s = elim (Option-cases (lookup id s.jobs)) [
  | inl e ↦ rw (e, apply_observed) (Evolves-refl s.jobs)
  | inr (job, e) ↦
      rw (e, apply_observed)
        (ground (
          arith,
          Evolves-refl s.jobs,
          observe-Evolves (job_status_from_phase phase) id job now s e,
        ))
]

cancel_job-Evolves :
    (id : JobRunId) (now : Time) (s : DurableStore)
    → Present s.jobs id
    → Evolves s.jobs (cancel_job id now s).jobs
unfolding cancel_job
cancel_job-Evolves id now s (a, h) =
    elim (Bool-cases (can_transition_job (job_at s id).status JobRunStatus.cancelled)) [
      | inl e ↦
          rw (e, cancel_job, transition_job)
            (insert-Evolves s.jobs id a (cancelled_at JobRunStatus.cancelled now (job_at s id)) h
              (ground (arith, can_transition_job-Forward a.status JobRunStatus.cancelled)))
      | inr e ↦ rw (e, cancel_job, transition_job) (Evolves-refl s.jobs)
    ]

pub cancel_jobs-Evolves :
    (ids : List JobRunId) (now : Time) (s : DurableStore)
    → AllPresent s.jobs ids
    → Evolves s.jobs (cancel_jobs ids now s).jobs
unfolding cancel_jobs
cancel_jobs-Evolves [] now s h = Evolves-refl s.jobs
cancel_jobs-Evolves (id ∷ ids) now s h =
    let g = cancel_job-Evolves id now s h.0 in
    Evolves-trans s.jobs _ _ g
      (cancel_jobs-Evolves ids now (cancel_job id now s) (Evolves-AllPresent s.jobs _ ids g h.1))

pub cancel_run-Evolves :
    (id : RunId) (now : Time) (s : DurableStore)
    → AllPresent s.jobs (lookup_or [] id s.run_jobs)
    → Evolves s.jobs (cancel_run id now s).0.jobs
unfolding cancel_run put_cancelled
cancel_run-Evolves id now s h =
    ground (arith, Evolves-refl s.jobs, cancel_jobs-Evolves (lookup_or [] id s.run_jobs) now s h)

pub mark_collected-Evolves :
    (id : JobRunId) (now : Time) (s : DurableStore)
    → Evolves s.jobs (mark_collected id now s).0.jobs
unfolding mark_collected
mark_collected-Evolves id now s = elim (Option-cases (lookup id s.jobs)) [
  | inl e ↦ rw (e, mark_collected) (Evolves-refl s.jobs)
  | inr (job, e) ↦
      rw (e, mark_collected)
        (ground (arith, Evolves-refl s.jobs, insert-Evolves s.jobs id job (collected_at now job) e))
]
