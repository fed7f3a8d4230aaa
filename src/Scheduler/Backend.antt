-- ===== src/Scheduler/Backend.antt =====
-- The in-memory stores as the two ports of the use cases.
pub mod Windows
pub mod Ingest
use forgelet.Run.Records.{JobRunId}
use forgelet.Memory.State.{DurableStore, ok}
use forgelet.Memory.Create
use forgelet.Memory.Read
use forgelet.Memory.Claim
use forgelet.Memory.Update
use forgelet.Memory.Active
use forgelet.Memory.Active.{ActiveStore}
use forgelet.Scheduler.Port.{DurablePort, ActivePort}

abbrev pub memory_port : DurablePort DurableStore
memory_port = record {
  record_delivery = λ clock d s. let (t, r) = Create.record_delivery clock d s in (t, ok r);
  create_run = Create.create_run;
  get_run = Read.get_run;
  list_job_runs = Read.list_job_runs;
  get_job_run = Read.get_job_run;
  claim_next_queued_job = Claim.claim_next_queued_job;
  release_claim = λ id s. (Claim.release_claim id s, ok tt);
  ack_dispatched = Update.ack_dispatched;
  apply_observed = Update.apply_observed;
  cancel_run = Update.cancel_run;
  list_gc_ready_jobs = λ s. ok (Read.list_gc_ready_jobs s);
  mark_collected = Update.mark_collected;
}

abbrev pub memory_active : ActivePort ActiveStore
memory_active = record {
  create_or_get = λ id a. let (b, obj) = Active.create_or_get id a in (b, ok obj);
  delete = λ id a. (Active.delete_object id a, ok tt);
}
