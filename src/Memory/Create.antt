-- ===== src/Memory/Create.antt =====
-- internal/storage/memory/store.go: `RecordDelivery`, `CreateRun` and `getRunLocked`.
use forgelet.Prelude.{
  Text, Map, List, [], ◌∷◌, ◌++◌, Bool, true, false, not, if◌then◌else◌, is_empty, none, some,
  lookup, insert, text_key,
}
use forgelet.Run.JobStatus.{JobRunStatus}
use forgelet.Run.RunStatus.{WorkflowRunStatus}
use forgelet.Run.Records.{
  RunId, JobRunId, Time, Delivery, DeliveryRecord, RunRecord, JobRunRecord, RunSeed, JobIntent,
  delivery_key,
}
use forgelet.Memory.State.{DurableStore, StoreError, Result, ok, err, new_id}

-- The record of a delivery that has no run yet.
abbrev pub new_delivery : Time → Delivery → DeliveryRecord
new_delivery clock d = record {
  key = d.key;
  event = d.event;
  payload = d.payload;
  received_at = clock;
  run_id = [];
}

-- `clock` is the reading of the injected clock.
unfoldable pub record_delivery :
    Time → Delivery → DurableStore → DurableStore × (DeliveryRecord × Bool)
record_delivery clock d s = elim (lookup d.key s.deliveries) [
  | some rec ↦ (s, (rec, false))
  | none ↦
      let rec = new_delivery clock d in
      (record s { deliveries = insert d.key rec s.deliveries }, (rec, true))
]

unfoldable pub get_run_locked : RunId → DurableStore → Result RunRecord
get_run_locked id s = elim (lookup id s.runs) [
  | none ↦ err StoreError.run_not_found
  | some run ↦ ok run
]

unfoldable pub new_job : RunId → JobRunId → JobIntent → Time → JobRunRecord
new_job run_id job_id intent now = record {
  id = job_id;
  run_id = run_id;
  job_key = intent.job_key;
  runner_class = intent.runner_class;
  depends_on = intent.depends_on;
  matrix = intent.matrix;
  plan_digest = intent.plan_digest;
  condition = intent.condition;
  status = JobRunStatus.queued;
  attempt = 1;
  active_name = [];
  active_uid = [];
  created_at = now;
  dispatched_at = none;
  started_at = none;
  finished_at = none;
  active_collected_at = none;
}

-- The variables that the loop of `CreateRun` fills.
pub record Created : Type 0 where
  pub key_index : Map Text JobRunId
  pub job_ids : List JobRunId

-- One round of the loop: the job is in the store before the next intent is looked at.
unfoldable pub add_job : RunId → Time → JobIntent → DurableStore → Created → DurableStore × Created
unfolding new_id new_job
add_job run_id now intent s c =
    let (job_id, s') = new_id s in
    (
      record s' { jobs = insert job_id (new_job run_id job_id intent now) s'.jobs },
      record {
        key_index = insert intent.job_key job_id c.key_index;
        job_ids = c.job_ids ++ job_id ∷ [];
      },
    )

unfoldable pub add_jobs :
    RunId → Time → List JobIntent → DurableStore → Created → DurableStore × Result Created
add_jobs run_id now [] s c = (s, ok c)
add_jobs run_id now (intent ∷ rest) s c = elim (lookup intent.job_key c.key_index) [
  | some id ↦ (s, err (StoreError.duplicate_job_key intent.job_key run_id))
  | none ↦ let (s', c') = add_job run_id now intent s c in add_jobs run_id now rest s' c'
]

-- The writes behind the loop.
unfoldable pub commit_run :
    RunSeed → DeliveryRecord → RunRecord → DurableStore → Created → DurableStore
commit_run seed rec run s c = record s {
  runs = insert run.id run s.runs;
  run_jobs = insert run.id c.job_ids s.run_jobs;
  by_job_key = insert run.id c.key_index s.by_job_key;
  deliveries = insert seed.delivery (record rec { run_id = run.id }) s.deliveries;
}

unfoldable pub finish_create :
    RunSeed
    → DeliveryRecord
    → RunRecord
    → DurableStore × Result Created
    → DurableStore × Result (RunRecord × Bool)
unfolding commit_run
finish_create seed rec run (s, ok c) = (commit_run seed rec run s c, ok (run, true))
finish_create seed rec run (s, err e) = (s, err e)

unfoldable pub create_new :
    RunSeed → Time → DeliveryRecord → DurableStore → DurableStore × Result (RunRecord × Bool)
unfolding new_id
create_new seed now rec s =
    let (run_id, s') = new_id s in
    let run : RunRecord = record {
      id = run_id;
      event = seed.event;
      delivery = seed.delivery;
      status = WorkflowRunStatus.queued;
      created_at = now;
      finished_at = none;
    } in
    finish_create seed rec run
      (add_jobs run_id now seed.jobs s' (record { key_index = []; job_ids = [] }))

unfoldable pub existing_run : Result RunRecord → Result (RunRecord × Bool)
existing_run (ok run) = ok (run, false)
existing_run (err e) = err e

unfoldable pub create_run : RunSeed → Time → DurableStore → DurableStore × Result (RunRecord × Bool)
unfolding existing_run
create_run seed now s = elim (lookup seed.delivery s.deliveries) [
  | none ↦ (s, err (StoreError.delivery_not_recorded seed.delivery))
  | some rec ↦
      if not (is_empty rec.run_id)
      then (s, existing_run (get_run_locked rec.run_id s))
      else (if is_empty seed.jobs
          then (s, err (StoreError.no_jobs seed.delivery))
          else create_new seed now rec s)
]
