-- ===== src/Scheduler/Ingestor.antt =====
-- internal/run/scheduler/ingestor.go: from a delivery to a run.
use forgelet.Prelude.{Bool, false, not, Option, none, some, List, [], ◌∷◌, is_empty, if◌then◌else◌}
use forgelet.Run.Records.{
  RunId, Time, Delivery, DeliveryRecord, JobIntent, IntentError, RunRecord, validate,
}
use forgelet.Memory.State.{Result, StoreError, ok, err}
use forgelet.Scheduler.Port.{DurablePort, Compiler}

-- What `Ingest` returns beside the new state.
pub data Ingested : Type 0 where
  run : RunId → Bool → Ingested
  store_failed : StoreError → Ingested
  compile_failed : Ingested
  invalid_job : IntentError → Ingested

-- The loop over the jobs: the first that does not validate.
unfoldable pub first_invalid : List JobIntent → Option IntentError
first_invalid [] = none
first_invalid (j ∷ js) = elim (validate j) [ some e ↦ some e | none ↦ first_invalid js ]

module _ {S : Type 0} (port : DurablePort S) (compile : Compiler) where
  unfoldable pub created : S × Result (RunRecord × Bool) → S × Ingested
  created (s, ok (r, fresh)) = (s, run r.id fresh)
  created (s, err e) = (s, store_failed e)

  -- From the compiled jobs on.
  unfoldable pub start : Delivery → List JobIntent → Time → S → S × Ingested
  unfolding created
  start d jobs now s = elim (first_invalid jobs) [
    | some e ↦ (s, invalid_job e)
    | none ↦
        if is_empty jobs
        then (s, run [] false)
        else created
            (port.create_run (record { delivery = d.key; event = d.event; jobs = jobs }) now s)
  ]

  unfoldable pub after_record : Delivery → Time → S × Result (DeliveryRecord × Bool) → S × Ingested
  unfolding start
  after_record d now (s, err e) = (s, store_failed e)
  after_record d now (s, ok (rec, fresh)) =
      if not (is_empty rec.run_id)
      then (s, run rec.run_id false)
      else (elim (compile d.event rec.payload) [
        | none ↦ (s, compile_failed)
        | some jobs ↦ start d jobs now s
      ])

  -- `clock` is the store's reading of the clock, `now` the ingestor's.
  unfoldable pub ingest : Delivery → Time → Time → S → S × Ingested
  unfolding after_record
  ingest d clock now s = after_record d now (port.record_delivery clock d s)
