-- ===== src/Memory/Progress.antt =====
-- The order of the statuses of a job, and the writes to the job table.
pub mod Operations
use forgelet.Prelude.{
  ◌≡◌, refl, ap, ◌∙◌, ◌≤◌, ◌⊎◌, inl, inr, true, false, Bool, Map, Option, none, some, List, [], ◌∷◌,
  lookup, insert, lookup-insert, lookup_or, text_key, arith, Bool-cases, Option-cases, is_none,
  if◌then◌else◌,
}
use forgelet.Run.JobStatus.{JobRunStatus, is_terminal, job_rank, transition_job, can_transition_job}
use forgelet.Run.JobStatus.{can_advance_job}
use forgelet.Run.Records.{RunId, JobRunId, Time, JobRunRecord, ObservedPhase, job_status_from_phase}
use forgelet.Memory.State.{DurableStore, job_at, zero_job}
use forgelet.Memory.Claim.{refresh_run_locked, skip_job, skipped_at, claim_first, Candidate}
use forgelet.Memory.Claim.{claim_next_queued_job, dependency_state_locked}
use forgelet.Memory.Update.{
  ActiveObject, ack_dispatched, apply_observed, cancel_job, cancel_jobs, cancel_run, put_cancelled,
  mark_collected, dispatched_with, observed_as, observe, stamp, cancelled_at, collected_at,
}

-- `b` is a later version of the record `a`.
pub record Forward (a b : JobRunRecord) : Type 0 where
  pub rank : job_rank a.status ≤ job_rank b.status
  pub sticky : is_terminal a.status ≡ true → b.status ≡ a.status
  pub id : b.id ≡ a.id
  pub run : b.run_id ≡ a.run_id
  pub key : b.job_key ≡ a.job_key
  pub attempt : b.attempt ≡ a.attempt

pub Forward-refl : (a : JobRunRecord) → Forward a a
Forward-refl a = ground arith

pub Forward-trans : {a b c : JobRunRecord} → Forward a b → Forward b c → Forward a c
Forward-trans p q = ground arith

-- Every job of the first table is in the second one, in a later version.
pub Grows : Map JobRunId JobRunRecord → Map JobRunId JobRunRecord → Type 0
Grows m n =
    (id : JobRunId) (a : JobRunRecord)
    → lookup id m ≡ some a
    → (b : JobRunRecord) × (lookup id n ≡ some b) × Forward a b

pub Grows-refl : (m : Map JobRunId JobRunRecord) → Grows m m
unfolding Grows
Grows-refl m id a e = (a, e, Forward-refl a)

pub Grows-trans : (l m n : Map JobRunId JobRunRecord) → Grows l m → Grows m n → Grows l n
unfolding Grows
Grows-trans l m n g h id a e =
    let (b, f, p) = g id a e in let (c, k, q) = h id b f in (c, k, Forward-trans p q)

pub insert-Grows :
    (m : Map JobRunId JobRunRecord) (id : JobRunId) (a b : JobRunRecord)
    → lookup id m ≡ some a
    → Forward a b
    → Grows m (insert id b m)
unfolding Grows
insert-Grows m id a b e p j c f = elim (text_key.dec id j) [
  | yes hit ↦ (b, ground (arith, lookup-insert id j b m), ground (arith, ap (λ k. lookup k m) hit))
  | no miss ↦ (c, ground (arith, lookup-insert id j b m), Forward-refl c)
]

pub insert_new-Grows :
    (m : Map JobRunId JobRunRecord) (id : JobRunId) (b : JobRunRecord)
    → lookup id m ≡ none
    → Grows m (insert id b m)
unfolding Grows
insert_new-Grows m id b e j c f = (c, ground (arith, lookup-insert id j b m), Forward-refl c)

-- The second table has no key that the first one lacks.
pub Same : Map JobRunId JobRunRecord → Map JobRunId JobRunRecord → Type 0
Same m n = (id : JobRunId) → lookup id m ≡ none → lookup id n ≡ none

-- The jobs are the same, each in a later version.
pub Evolves : Map JobRunId JobRunRecord → Map JobRunId JobRunRecord → Type 0
Evolves m n = Grows m n × Same m n

pub Evolves-Grows : (m n : Map JobRunId JobRunRecord) → Evolves m n → Grows m n
unfolding Evolves
Evolves-Grows m n h = h.0

pub Evolves-none :
    (m n : Map JobRunId JobRunRecord) (id : JobRunId)
    → Evolves m n
    → lookup id m ≡ none
    → lookup id n ≡ none
unfolding Evolves Same
Evolves-none m n id h e = h.1 id e

pub Evolves-refl : (m : Map JobRunId JobRunRecord) → Evolves m m
unfolding Evolves Same
Evolves-refl m = (Grows-refl m, λ id e. e)

pub Evolves-trans : (l m n : Map JobRunId JobRunRecord) → Evolves l m → Evolves m n → Evolves l n
unfolding Evolves Same
Evolves-trans l m n g h = (Grows-trans l m n g.0 h.0, λ id e. h.1 id (g.1 id e))

pub insert-Evolves :
    (m : Map JobRunId JobRunRecord) (id : JobRunId) (a b : JobRunRecord)
    → lookup id m ≡ some a
    → Forward a b
    → Evolves m (insert id b m)
unfolding Evolves Same
insert-Evolves m id a b e p = (
  insert-Grows m id a b e p,
  λ j f. ground (arith, lookup-insert id j b m, ap (λ (k : JobRunId). lookup k m) {x = id} {y = j}),
)

-- A job that the table holds.
abbrev pub Present : Map JobRunId JobRunRecord → JobRunId → Type 0
Present m id = (a : JobRunRecord) × (lookup id m ≡ some a)

pub Grows-Present :
    (m n : Map JobRunId JobRunRecord) (id : JobRunId) → Grows m n → Present m id → Present n id
unfolding Grows
Grows-Present m n id g (a, e) = let (b, f, p) = g id a e in (b, f)

pub Grows-Forward :
    (m n : Map JobRunId JobRunRecord) (id : JobRunId) (a : JobRunRecord)
    → Grows m n
    → lookup id m ≡ some a
    → (b : JobRunRecord) × (lookup id n ≡ some b) × Forward a b
unfolding Grows
Grows-Forward m n id a g e = g id a e
