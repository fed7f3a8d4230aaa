-- ===== src/Memory/Invariant/History.antt =====
-- Histories of the durable store: any sequence of its operations, in any order.
use forgelet.Prelude.{◌≡◌, refl, some, List, [], ◌∷◌, lookup, lookup_or, text_key, arith}
use forgelet.Run.Records.{RunId, JobRunId, Time, JobRunRecord, ObservedPhase, Delivery, RunSeed}
use forgelet.Memory.State.{DurableStore}
use forgelet.Memory.Create.{record_delivery, create_run}
use forgelet.Memory.Claim.{claim_next_queued_job, refresh_run_locked, release_claim}
use forgelet.Memory.Update.{
  ActiveObject, ack_dispatched, apply_observed, observe, cancel_run, put_cancelled, rerequest_job,
  mark_collected,
}
use forgelet.Memory.Progress.{
  Forward, Evolves, Evolves-refl, Evolves-Grows, Grows, Grows-refl, Grows-trans, Grows-Forward,
}
use forgelet.Memory.Progress.Operations.{
  ack_dispatched-Evolves, apply_observed-Evolves, cancel_run-Evolves, mark_collected-Evolves,
}
use forgelet.Memory.Invariant.{
  WellFormed, SameIndex, Evolves-WellFormed, claim_next_queued_job-Evolves, claim_first-SameIndex,
  cancel_jobs-SameIndex,
}
use forgelet.Memory.Invariant.Create.{Extends, create_run-Extends, rerequest_job-Extends}

-- A call of the store, with the clock reading that it uses.
pub data Call : Type 0 where
  records : Time → Delivery → Call
  creates : RunSeed → Time → Call
  claims : (JobRunId → Time) → Call
  releases : JobRunId → Call
  acks : JobRunId → ActiveObject → Time → Call
  observes : JobRunId → ObservedPhase → Time → Call
  cancels : RunId → Time → Call
  rerequests : JobRunId → Time → Call
  collects : JobRunId → Time → Call

-- The state behind a call, whether it succeeds or fails.
unfoldable pub step : DurableStore → Call → DurableStore
step s (records clock d) = (record_delivery clock d s).0
step s (creates seed now) = (create_run seed now s).0
step s (claims clock) = (claim_next_queued_job clock s).0
step s (releases id) = release_claim id s
step s (acks id obj now) = (ack_dispatched id obj now s).0
step s (observes id phase now) = (apply_observed id phase now s).0
step s (cancels id now) = (cancel_run id now s).0
step s (rerequests id now) = (rerequest_job id now s).0
step s (collects id now) = (mark_collected id now s).0

unfoldable pub history : DurableStore → List Call → DurableStore
history s [] = s
history s (c ∷ cs) = history (step s c) cs

Evolves-Extends :
    (s t : DurableStore) → SameIndex s t → Evolves s.jobs t.jobs → WellFormed s → Extends s t
Evolves-Extends s t i g w = record {
  well_formed = Evolves-WellFormed s t i g w;
  grows = Evolves-Grows s.jobs t.jobs g;
}

record_delivery-SameIndex :
    (clock : Time) (d : Delivery) (s : DurableStore) → SameIndex s (record_delivery clock d s).0
unfolding record_delivery
record_delivery-SameIndex clock d s = ground arith

record_delivery-Evolves :
    (clock : Time) (d : Delivery) (s : DurableStore)
    → Evolves s.jobs (record_delivery clock d s).0.jobs
unfolding record_delivery
record_delivery-Evolves clock d s = ground (arith, Evolves-refl s.jobs)

ack_dispatched-SameIndex :
    (id : JobRunId) (obj : ActiveObject) (now : Time) (s : DurableStore)
    → SameIndex s (ack_dispatched id obj now s).0
unfolding ack_dispatched
ack_dispatched-SameIndex id obj now s = ground arith

apply_observed-SameIndex :
    (id : JobRunId) (phase : ObservedPhase) (now : Time) (s : DurableStore)
    → SameIndex s (apply_observed id phase now s).0
unfolding apply_observed observe refresh_run_locked
apply_observed-SameIndex id phase now s = ground arith

cancel_run-SameIndex :
    (id : RunId) (now : Time) (s : DurableStore) → SameIndex s (cancel_run id now s).0
unfolding cancel_run put_cancelled
cancel_run-SameIndex id now s =
    ground (arith, cancel_jobs-SameIndex (lookup_or [] id s.run_jobs) now s)

mark_collected-SameIndex :
    (id : JobRunId) (now : Time) (s : DurableStore) → SameIndex s (mark_collected id now s).0
unfolding mark_collected
mark_collected-SameIndex id now s = ground arith

claim_next_queued_job-SameIndex :
    (clock : JobRunId → Time) (s : DurableStore) → SameIndex s (claim_next_queued_job clock s).0
unfolding claim_next_queued_job
claim_next_queued_job-SameIndex clock s = claim_first-SameIndex clock _ s

step-Extends : (s : DurableStore) (c : Call) → WellFormed s → Extends s (step s c)
unfolding step release_claim
step-Extends s (records clock d) w =
    Evolves-Extends s _ (record_delivery-SameIndex clock d s) (record_delivery-Evolves clock d s) w
step-Extends s (creates seed now) w = create_run-Extends seed now s w
step-Extends s (claims clock) w =
    Evolves-Extends s _ (claim_next_queued_job-SameIndex clock s)
      (claim_next_queued_job-Evolves clock s) w
step-Extends s (releases id) w =
    Evolves-Extends s _ (record { ids = refl; run_jobs = refl }) (Evolves-refl s.jobs) w
step-Extends s (acks id obj now) w =
    Evolves-Extends s _ (ack_dispatched-SameIndex id obj now s)
      (ack_dispatched-Evolves id obj now s) w
step-Extends s (observes id phase now) w =
    Evolves-Extends s _ (apply_observed-SameIndex id phase now s)
      (apply_observed-Evolves id phase now s) w
step-Extends s (cancels id now) w =
    Evolves-Extends s _ (cancel_run-SameIndex id now s) (cancel_run-Evolves id now s (w.listed id))
      w
step-Extends s (rerequests id now) w = rerequest_job-Extends id now s w
step-Extends s (collects id now) w =
    Evolves-Extends s _ (mark_collected-SameIndex id now s) (mark_collected-Evolves id now s) w

-- Every operation, on every branch, keeps the store well formed: the identifiers to come are
-- unused, and each job that a run lists is in the job table.
pub step-WellFormed : (s : DurableStore) (c : Call) → WellFormed s → WellFormed (step s c)
step-WellFormed s c w = (step-Extends s c w).well_formed

history-Grows :
    (s : DurableStore) (cs : List Call) → WellFormed s → Grows s.jobs (history s cs).jobs
unfolding history
history-Grows s [] w = Grows-refl s.jobs
history-Grows s (c ∷ cs) w =
    let e = step-Extends s c w in
    Grows-trans s.jobs (step s c).jobs _ e.grows (history-Grows (step s c) cs e.well_formed)

-- From a well formed store, no history of calls loses a job: the job keeps its identifier, run,
-- key and attempt, its rank never falls, and a terminal status never changes.
pub history-Forward :
    (s : DurableStore) (cs : List Call) (id : JobRunId) (a : JobRunRecord)
    → WellFormed s
    → lookup id s.jobs ≡ some a
    → (b : JobRunRecord) × (lookup id (history s cs).jobs ≡ some b) × Forward a b
history-Forward s cs id a w e = Grows-Forward s.jobs _ id a (history-Grows s cs w) e
