-- ===== src/Run/Records.antt =====
-- internal/run/model/run.go: the durable records, and what an observed phase means.
use forgelet.Prelude.{
  ℕ, Bool, true, false, Option, none, some, List, ◌++◌, Text, text, to_lower, Key, Map,
}
use forgelet.Prelude.{[], ◌∷◌, Text-discrete, ◌||◌, if◌then◌else◌, ◌==◌}
use forgelet.Run.JobStatus.{JobRunStatus}
use forgelet.Run.RunStatus.{WorkflowRunStatus}

-- Identifiers are strings; the empty one stands for "no run yet".
abbrev pub RunId : Type 0
RunId = Text

abbrev pub JobRunId : Type 0
JobRunId = Text

-- A `time.Time` is the number of its instant.
abbrev pub Time : Type 0
Time = ℕ

pub record RepositoryRef : Type 0 where
  pub provider : Text
  pub owner : Text
  pub name : Text

pub record DeliveryKey : Type 0 where
  pub provider : Text
  pub delivery_id : Text

unfoldable pub DeliveryKey-discrete : Discrete DeliveryKey
DeliveryKey-discrete = hlevel Text-discrete

instance abbrev pub delivery_key : Key DeliveryKey
delivery_key = record { dec = DeliveryKey-discrete }

pub record Event : Type 0 where
  pub provider : Text
  pub name : Text
  pub delivery_id : Text
  pub repository : RepositoryRef
  pub ref : Text
  pub sha : Text
  pub actor : Text

pub record Delivery : Type 0 where
  pub key : DeliveryKey
  pub event : Event
  pub payload : Text

pub record DeliveryRecord : Type 0 where
  pub key : DeliveryKey
  pub event : Event
  pub payload : Text
  pub received_at : Time
  pub run_id : RunId

pub record JobIntent : Type 0 where
  pub job_key : Text
  pub runner_class : Text
  pub depends_on : List Text
  pub matrix : Map Text Text
  pub plan_digest : Text
  pub condition : Text

pub record RunSeed : Type 0 where
  pub delivery : DeliveryKey
  pub event : Event
  pub jobs : List JobIntent

pub record RunRecord : Type 0 where
  pub id : RunId
  pub event : Event
  pub delivery : DeliveryKey
  pub status : WorkflowRunStatus
  pub created_at : Time
  pub finished_at : Option Time

pub record JobRunRecord : Type 0 where
  pub id : JobRunId
  pub run_id : RunId
  pub job_key : Text
  pub runner_class : Text
  pub depends_on : List Text
  pub matrix : Map Text Text
  pub plan_digest : Text
  pub condition : Text
  pub status : JobRunStatus
  pub attempt : ℕ
  pub active_name : Text
  pub active_uid : Text
  pub created_at : Time
  pub dispatched_at : Option Time
  pub started_at : Option Time
  pub finished_at : Option Time
  pub active_collected_at : Option Time

unfoldable pub cr_name : JobRunId → Text
cr_name id = text "jobrun-" ++ to_lower id

-- `other` is any string that the program gives no meaning.
pub data ObservedPhase : Type 0 where
  pending running succeeded failed skipped : ObservedPhase
  other : Text → ObservedPhase

unfoldable pub job_status_from_phase : ObservedPhase → JobRunStatus × Bool
job_status_from_phase running = (JobRunStatus.running, true)
job_status_from_phase succeeded = (JobRunStatus.succeeded, true)
job_status_from_phase failed = (JobRunStatus.failed, true)
job_status_from_phase skipped = (JobRunStatus.skipped, true)
job_status_from_phase _ = (JobRunStatus.unset, false)

-- `strings.TrimSpace(s) == ""`: every byte is ASCII white space.
unfoldable pub is_blank : Text → Bool
is_blank [] = true
is_blank (c ∷ s) =
    let rest = is_blank s in
    if c == 32 || c == 9 || c == 10 || c == 11 || c == 12 || c == 13 then rest else false

pub data IntentError : Type 0 where
  empty_job_key empty_runner_class : IntentError

unfoldable pub validate : JobIntent → Option IntentError
unfolding is_blank
validate j =
    if is_blank j.job_key
    then some IntentError.empty_job_key
    else (if is_blank j.runner_class then some IntentError.empty_runner_class else none)
