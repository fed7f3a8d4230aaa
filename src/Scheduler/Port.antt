-- ===== src/Scheduler/Port.antt =====
-- internal/run/scheduler/port.go: what the use cases ask of the two stores and of the compiler.
use forgelet.Prelude.{Text, Bool, List, Option}
use forgelet.Run.Records.{
  RunId, JobRunId, Time, Delivery, DeliveryRecord, Event, JobIntent, JobRunRecord, ObservedPhase,
  RunRecord, RunSeed,
}
use forgelet.Memory.State.{Result}
use forgelet.Memory.Update.{ActiveObject}

-- `DurableStore`, over the states `S` of an implementation: the operations that the use cases call.
pub record DurablePort (S : Type 0) : Type 0 where
  pub record_delivery : Time → Delivery → S → S × Result (DeliveryRecord × Bool)
  pub create_run : RunSeed → Time → S → S × Result (RunRecord × Bool)
  pub get_run : RunId → S → Result RunRecord
  pub list_job_runs : RunId → S → Result (List JobRunRecord)
  pub get_job_run : JobRunId → S → Result JobRunRecord
  pub claim_next_queued_job : (JobRunId → Time) → S → S × Result JobRunRecord
  pub release_claim : JobRunId → S → S × Result (Unit {0})
  pub ack_dispatched : JobRunId → ActiveObject → Time → S → S × Result (Unit {0})
  pub apply_observed : JobRunId → ObservedPhase → Time → S → S × Result (Unit {0})
  pub cancel_run : RunId → Time → S → S × Result (Unit {0})
  pub list_gc_ready_jobs : S → Result (List JobRunRecord)
  pub mark_collected : JobRunId → Time → S → S × Result (Unit {0})

-- `ActiveExecutionStore`, over the states `A` of an implementation.
pub record ActivePort (A : Type 0) : Type 0 where
  pub create_or_get : JobRunId → A → A × Result ActiveObject
  pub delete : JobRunId → A → A × Result (Unit {0})

-- `Compiler`: the job instances of an event, or an error.
abbrev pub Compiler : Type 0
Compiler = Event → Text → Option (List JobIntent)
