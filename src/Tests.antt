-- ===== src/Tests.antt =====
-- Sample data, and the theorems at concrete inputs.
mod Store
mod Dispatch
mod Status
mod Security
mod Workflow
mod Compile
mod Controller
mod Server
mod Syntax
mod Expression
mod Executor
mod Engine
use forgelet.Prelude.{
  Text-discrete, text_key, lookup, insert, ℕ, suc, ◌+◌, ◌≡◌, ◌≢◌, refl, arith, Text, text, List, [],
  ◌∷◌, none, some,
}
use forgelet.Run.JobStatus.{JobRunStatus}
use forgelet.Run.RunStatus.{WorkflowRunStatus}
use forgelet.Run.Records.{
  DeliveryKey-discrete, DeliveryKey, Delivery, Event, RepositoryRef, JobIntent, RunSeed,
  JobRunRecord, RunRecord, JobRunId, RunId,
}
use forgelet.Memory.State.{IdGen, DurableStore, new_durable_store}
use forgelet.Memory.Create.{
  record_delivery, create_run, create_new, finish_create, add_jobs, add_job,
}
use forgelet.Memory.Invariant.{WellFormed, new_durable_store-WellFormed}
use forgelet.Memory.Invariant.History.{step, records, creates, step-WellFormed}

abbrev ids : IdGen
ids = record { mint = λ n. (n + 1) ∷ []; drawn = 0 }

abbrev repo : RepositoryRef
repo = record { provider = text "github"; owner = text "acme"; name = text "app" }

abbrev push : Event
push = record {
  provider = text "github";
  name = text "push";
  delivery_id = text "d1";
  repository = repo;
  ref = text "refs/heads/main";
  sha = text "abc";
  actor = text "ann";
}

abbrev delivery : Delivery
delivery = record {
  key = record { provider = text "github"; delivery_id = text "d1" };
  event = push;
  payload = [];
}

abbrev intent : Text → List Text → JobIntent
intent key needs = record {
  job_key = key;
  runner_class = text "small";
  depends_on = needs;
  matrix = [];
  plan_digest = [];
  condition = [];
}

abbrev seed : RunSeed
seed = record {
  delivery = delivery.key;
  event = push;
  jobs = intent (text "build") [] ∷ intent (text "test") (text "build" ∷ []) ∷ [];
}

abbrev empty_store : DurableStore
empty_store = new_durable_store ids

abbrev recorded : DurableStore
recorded = (record_delivery 1 delivery empty_store).0

abbrev started : DurableStore
started = (create_run seed 2 recorded).0

abbrev run_1 : RunId
run_1 = 1 ∷ []

abbrev build_1 : JobRunId
build_1 = 2 ∷ []

abbrev test_1 : JobRunId
test_1 = 3 ∷ []

abbrev build_job : JobRunRecord
build_job = record {
  id = build_1;
  run_id = run_1;
  job_key = text "build";
  runner_class = text "small";
  depends_on = [];
  matrix = [];
  plan_digest = [];
  condition = [];
  status = JobRunStatus.queued;
  attempt = 1;
  active_name = [];
  active_uid = [];
  created_at = 2;
  dispatched_at = none;
  started_at = none;
  finished_at = none;
  active_collected_at = none;
}

empty_store-WellFormed : WellFormed empty_store
empty_store-WellFormed = new_durable_store-WellFormed ids (λ m n h. ground arith) (λ n h. cc)

recorded-WellFormed : WellFormed recorded
recorded-WellFormed =
    unfold step in step-WellFormed empty_store (records 1 delivery) empty_store-WellFormed

started-WellFormed : WellFormed started
started-WellFormed = unfold step in step-WellFormed recorded (creates seed 2) recorded-WellFormed

pub started_build : lookup build_1 started.jobs ≡ some build_job
unfolding lookup insert create_run record_delivery new_durable_store Text-discrete
    DeliveryKey-discrete create_new finish_create add_jobs add_job
started_build = refl

abbrev first_run : RunRecord
first_run = record {
  id = run_1;
  delivery = delivery.key;
  event = push;
  status = WorkflowRunStatus.queued;
  created_at = 2;
  finished_at = none;
}

pub started_run : lookup run_1 started.runs ≡ some first_run
unfolding lookup insert create_run record_delivery new_durable_store Text-discrete
    DeliveryKey-discrete create_new finish_create add_jobs add_job
started_run = refl
