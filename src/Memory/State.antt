-- ===== src/Memory/State.antt =====
-- internal/storage/memory/store.go: the state of the durable store, and its errors.
-- internal/run/scheduler/idgen.go: the source of identifiers.
use forgelet.Prelude.{ℕ, suc, Text, Map, List, [], Bool, none, lookup_or, text_key}
use forgelet.Run.JobStatus.{JobRunStatus}
use forgelet.Run.RunStatus.{WorkflowRunStatus}
use forgelet.Run.Records.{RunId, JobRunId, DeliveryKey, DeliveryRecord, RunRecord, JobRunRecord}

-- The ULID library behind the generator is given: `mint n` is the n-th identifier it draws.
pub record IdGen : Type 0 where
  pub mint : ℕ → Text
  pub drawn : ℕ

pub record DurableStore : Type 0 where
  pub ids : IdGen
  pub deliveries : Map DeliveryKey DeliveryRecord
  pub runs : Map RunId RunRecord
  pub jobs : Map JobRunId JobRunRecord
  pub run_jobs : Map RunId (List JobRunId)
  pub by_job_key : Map RunId (Map Text JobRunId)
  pub claimed : Map JobRunId Bool

-- The errors that a store returns. `nil_map` is the panic of a write to a nil map; `unavailable` is
-- a failure of what stands behind another implementation of the port.
pub data StoreError : Type 0 where
  delivery_not_recorded no_jobs : DeliveryKey → StoreError
  duplicate_job_key : Text → RunId → StoreError
  run_not_found job_run_not_found no_queued_job nil_map : StoreError
  unavailable : Text → StoreError
  job_not_dispatchable : JobRunId → JobRunStatus → StoreError
  already_dispatched : JobRunId → Text → Text → StoreError
  already_terminal : RunId → WorkflowRunStatus → StoreError

pub data Result {ℓ} (A : Type ℓ) : Type ℓ where
  ok : A → Result A
  err : StoreError → Result A

unfoldable pub new_durable_store : IdGen → DurableStore
new_durable_store ids = record {
  ids = ids;
  deliveries = [];
  runs = [];
  jobs = [];
  run_jobs = [];
  by_job_key = [];
  claimed = [];
}

-- `NewRunID` and `NewJobRunID` draw from the one generator.
unfoldable pub new_id : DurableStore → Text × DurableStore
new_id s = (
  s.ids.mint s.ids.drawn,
  record s { ids = record { mint = s.ids.mint; drawn = suc s.ids.drawn } },
)

-- The zero value of the Go type.
abbrev pub zero_job : JobRunRecord
zero_job = record {
  id = [];
  run_id = [];
  job_key = [];
  runner_class = [];
  depends_on = [];
  matrix = [];
  plan_digest = [];
  condition = [];
  status = JobRunStatus.unset;
  attempt = 0;
  active_name = [];
  active_uid = [];
  created_at = 0;
  dispatched_at = none;
  started_at = none;
  finished_at = none;
  active_collected_at = none;
}

-- `s.jobs[id]`
abbrev pub job_at : DurableStore → JobRunId → JobRunRecord
job_at s id = lookup_or zero_job id s.jobs
