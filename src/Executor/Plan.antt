-- ===== src/Executor/Plan.antt =====
-- internal/run/plan/plan.go and internal/runtime/executor/port.go: the plan of a job and the report
-- on it. The executor reads no step of a composite step, so whether there is one is all of it here.
use forgelet.Prelude.{ℕ, Bool, Option, List, Text, Map}
use forgelet.Run.Records.{JobRunId, RepositoryRef}

pub record SecretRef : Type 0 where
  pub scope : Text
  pub name : Text
  pub env : Text

pub record RunStep : Type 0 where
  pub script : Text
  pub shell : Text
  pub env : Map Text Text

pub record BuiltinStep : Type 0 where
  pub action : Text
  pub version : Text
  pub inputs : Map Text Text

pub record JsStep : Type 0 where
  pub repo : Text
  pub ref : Text
  pub path : Text
  pub main : Text
  pub script : Text
  pub inputs : Map Text Text

-- `Step`
pub record PlanStep : Type 0 where
  pub id : Text
  pub name : Text
  pub condition : Text
  pub run : RunStep
  pub builtin : Option BuiltinStep
  pub js : Option JsStep
  pub composite : Bool
  pub continue_on_error : Bool
  pub working_dir : Text

pub record Plan : Type 0 where
  pub job_run_id : JobRunId
  pub repository : RepositoryRef
  pub event_name : Text
  pub actor : Text
  pub sha : Text
  pub ref : Text
  pub runner_class : Text
  pub env : Map Text Text
  pub steps : List PlanStep
  pub secret_refs : List SecretRef
  pub timeout_secs : ℕ

-- The constants for outcomes and conclusions; `unset` is the empty string.
pub data StepOutcome : Type 0 where
  success failure skipped unset : StepOutcome

-- The code of a process, or the -1 of a process that did not exit by itself.
pub data ExitCode : Type 0 where
  code : ℕ → ExitCode
  minus_one : ExitCode

pub record StepResult : Type 0 where
  pub step_id : Text
  pub exit_code : ExitCode
  pub duration_ms : ℕ
  pub outcome : StepOutcome
  pub conclusion : StepOutcome

-- The texts of `JobResult.Error`.
pub data JobError : Type 0 where
  bad_job_env : Text → JobError
  cancelled_before step_cancelled bad_condition bad_script : Text → JobError
  bad_input bad_step_env : Text → Text → JobError
  builtin_not_found : Text → JobError
  step_failed : Text → ExitCode → JobError

pub record JobResult : Type 0 where
  pub job_run_id : JobRunId
  pub success : Bool
  pub cancelled : Bool
  pub steps : List StepResult
  pub error : Option JobError
