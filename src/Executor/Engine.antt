-- ===== src/Executor/Engine.antt =====
-- internal/runtime/executor/engine.go: the run of a job. `Host` stands for what lies outside: the
-- processes, the files and the clock of the machine, the control plane, and the handlers of the
-- actions. Since each step runs once at most, an answer that depends on the index of the step can
-- be any answer at all. A map is ranged over in the order of its association list.
pub mod Run
pub mod Rule
pub mod Rounds
pub mod Account
pub mod Keeping
pub mod Masking
pub mod Status
use forgelet.Prelude.{
  ℕ, zero, suc, Bool, true, false, not, ◌&&◌, ◌||◌, Option, none, some, List, [], ◌∷◌, ◌++◌, map,
  Text, text, text_key, Map, lookup, insert, is, is_empty, cut_prefix, has_prefix, join, to_lower,
  sort, text_lt, if◌then◌else◌, ◌⊎◌, inl, inr,
}
use forgelet.Run.Records.{JobRunId}
use forgelet.Expression.Errors.{Outcome, ok, err}
use forgelet.Expression.Value.{Value, Float}
use forgelet.Expression.Functions.{Json}
use forgelet.Expression.Env.{Env, WorkspaceHasher}
use forgelet.Expression.Conditions.{has_expression, interpolate, evaluate_condition}
use forgelet.Executor.FileCommand.{Kv, parse_kv_file, apply_kvs, parse_path_file}
use forgelet.Executor.Command.{Command, parse_command}
use forgelet.Executor.Mask.{Masker, new_masker, add, apply_mask}
use forgelet.Executor.Plan.{
  SecretRef, RunStep, BuiltinStep, JsStep, PlanStep, Plan, StepOutcome, success, failure, skipped,
  unset, ExitCode, code, minus_one, StepResult, JobError, bad_job_env, cancelled_before,
  step_cancelled, bad_condition, bad_script, bad_input, bad_step_env, builtin_not_found,
  step_failed, JobResult,
}
use forgelet.Executor.Context.{StepState, job_env, expr_env}

-- How a process, a handler or a script ends: without an error, by cancellation, or with an error.
pub data Verdict : Type 0 where
  finished cancelled broken : Verdict

-- What a step leaves behind: the lines that it wrote, the outputs that it set by a call, and the
-- contents of its files.
pub record Ran : Type 0 where
  pub verdict : Verdict
  pub exit : ExitCode
  pub duration_ms : ℕ
  pub lines : List Text
  pub outputs : List Kv
  pub env_file : Text
  pub output_file : Text
  pub path_file : Text
  pub state_file : Text

abbrev exit_of : Verdict → ExitCode
exit_of finished = code 0
exit_of cancelled = code 1
exit_of broken = code 1

-- A handler has no code of a process, and its output is not read for commands. A process sets no
-- outputs by a call.
abbrev pub from_handler : Ran → Ran
from_handler r = record r { exit = exit_of r.verdict; lines = [] }

abbrev pub from_process : Ran → Ran
from_process r = record r { outputs = [] }

pub record Host : Type 0 where
  pub default_env : Map Text Text
  pub hasher : WorkspaceHasher
  pub os : Text
  pub arch : Text
  -- The values of the references by scope and name, `none` for an error.
  pub fetch_secrets : List SecretRef → Option (Map Text Text)
  pub make_dir : Bool
  -- Whether the context is done before the step.
  pub is_done : ℕ → Bool
  -- The path of a file of the step, by its ending.
  pub file_of : ℕ → Text → Text
  -- Whether the files of the step can be written.
  pub prepare : ℕ → Bool
  pub run_script : ℕ → PlanStep → Text → Map Text Text → Ran
  pub run_js : ℕ → JsStep → Text → Map Text Text → Map Text Text → Ran
  pub builtin : Text → Option (ℕ → Map Text Text → Map Text Text → Ran)

-- A record of the log at the level of information, with the masker that it went through. The
-- warnings, and what a handler logs by itself, are left out.
pub record LogLine : Type 0 where
  pub masker : Masker
  pub message : Text
  pub attrs : List (Text × Text)

-- `Handle` of the handler of `mask.go`, for attributes that are texts.
unfoldable pub handle : Masker → Text → List (Text × Text) → LogLine
unfolding apply_mask
handle m message attrs = record {
  masker = m;
  message = apply_mask m message;
  attrs = map (λ a. (a.0, apply_mask m a.1)) attrs;
}

-- The variables of `Run` that the loop over the steps changes.
pub record Job : Type 0 where
  pub env : Map Text Text
  pub states : Map Text StepState
  pub path_entries : List Text
  pub masker : Masker
  pub log : List LogLine
  pub results : List StepResult

-- A call of the logger.
abbrev pub write : Text → List (Text × Text) → Job → Job
write message attrs job = record job { log = job.log ++ handle job.masker message attrs ∷ [] }

-- `fmt.Sprint` of a map, which sorts the keys.
unfoldable pub params_text : Map Text Text → Text
unfolding join sort text_lt
params_text m =
    text "map["
    ++ join (text " ") (map (λ e. e.0 ++ text ":" ++ e.1) (sort (λ a b. text_lt a.0 b.0) m))
    ++ text "]"

-- `emitLine`
unfoldable pub emit_command : Command → Job → Job
unfolding add params_text handle
emit_command c job =
    if is c.name (text "add-mask")
    then record job { masker = add c.message job.masker }
    else (if is c.name (text "group") || is c.name (text "endgroup")
        then write (text "group") ((text "action", c.name) ∷ (text "title", c.message) ∷ []) job
        else write (text "annotation")
            ((text "level", c.name)
              ∷ (text "message", c.message)
              ∷ (text "params", params_text c.parameters)
              ∷ [])
            job)

unfoldable pub emit_line : Text → Job → Job
unfolding emit_command parse_command handle
emit_line line job = elim (parse_command line) [
  | some c ↦ emit_command c job
  | none ↦ write (text "out") ((text "message", line) ∷ []) job
]

unfoldable pub emit_lines : List Text → Job → Job
unfolding emit_line
emit_lines [] job = job
emit_lines (line ∷ lines) job = emit_lines lines (emit_line line job)

-- The entries of a file, none of a malformed one.
unfoldable pub entries : Text → List Kv
unfolding parse_kv_file
entries content = elim (parse_kv_file content) [ none ↦ [] | some kvs ↦ kvs ]

unfoldable pub apply_states : Map Text Text → List Kv → Map Text Text
apply_states env [] = env
apply_states env (kv ∷ kvs) = apply_states (insert (text "STATE_" ++ kv.key) kv.value env) kvs

-- The log lines of the outputs of a step.
unfoldable pub output_lines : Masker → Text → List Kv → List LogLine
unfolding handle
output_lines m id [] = []
output_lines m id (kv ∷ kvs) =
    handle m (text "step output")
      ((text "step", id) ∷ (text "key", kv.key) ∷ (text "value", kv.value) ∷ [])
    ∷ output_lines m id kvs

-- The files of a step that has run, folded into the job. Its state has no outcome yet.
unfoldable pub fold_files : PlanStep → Ran → Job → Job
unfolding entries apply_kvs apply_states parse_path_file output_lines
fold_files step r job = record job {
  env = apply_states (apply_kvs job.env (entries r.env_file)) (entries r.state_file);
  path_entries = parse_path_file r.path_file ++ job.path_entries;
  states =
      insert step.id
        (record {
          outputs = apply_kvs (apply_kvs [] r.outputs) (entries r.output_file);
          outcome = unset;
          conclusion = unset;
        })
        job.states;
  log = job.log ++ output_lines job.masker step.id (entries r.output_file);
}

-- A step that was not run.
abbrev pub unrun : Text → StepOutcome → StepOutcome → StepResult
unrun id o c = record {
  step_id = id;
  exit_code = code 0;
  duration_ms = 0;
  outcome = o;
  conclusion = c;
}

abbrev pub result_of : PlanStep → Ran → StepOutcome → StepOutcome → StepResult
result_of step r o c = record {
  step_id = step.id;
  exit_code = r.exit;
  duration_ms = r.duration_ms;
  outcome = o;
  conclusion = c;
}

-- How one round of the loop ends: it goes on, the job fails at the step with or without a result
-- for it, or the job is cancelled.
pub data Round : Type 0 where
  next : Job → Round
  fail_before : JobError → Job → Round
  fail_after cancel_at : JobError → Job → Round

-- The result of a step, and its outcome in the state that was made for it.
unfoldable pub record_step : PlanStep → Ran → StepOutcome → StepOutcome → Job → Job
record_step step r o c job = record job {
  results = job.results ++ result_of step r o c ∷ [];
  states =
      insert step.id
        (record {
          outputs = elim (lookup step.id job.states) [ none ↦ [] | some st ↦ st.outputs ];
          outcome = o;
          conclusion = c;
        })
        job.states;
}

-- The `switch` at the end of a round.
unfoldable pub settle : PlanStep → Ran → Job → Round
unfolding record_step
settle step r job = elim r.verdict [
  | finished ↦ next (record_step step r success success job)
  | cancelled ↦ cancel_at (step_cancelled step.id) job
  | broken ↦
      if step.continue_on_error
      then next (record_step step r failure success job)
      else fail_after (step_failed step.id r.exit)
          (record job { results = job.results ++ result_of step r failure failure ∷ [] })
]

-- A step that was run, from the lines that it wrote on.
unfoldable pub close : PlanStep → Ran → Job → Round
unfolding emit_lines fold_files settle
close step r job = settle step r (fold_files step r (emit_lines r.lines job))

-- The condition is false.
unfoldable pub skip_step : PlanStep → Job → Job
skip_step step job = record job {
  states =
      insert step.id (record { outputs = []; outcome = skipped; conclusion = skipped }) job.states;
  results = job.results ++ unrun step.id skipped skipped ∷ [];
}

-- A composite step does nothing.
unfoldable pub pass_step : PlanStep → Job → Job
pass_step step job = record job {
  states =
      insert step.id (record { outputs = []; outcome = success; conclusion = success }) job.states;
  results = job.results ++ unrun step.id success success ∷ [];
}

-- The secrets for the inputs of a step, over the inputs that it has.
unfoldable pub overlay_secrets : Text → Map Text Text → Map Text Text → Map Text Text
unfolding cut_prefix
overlay_secrets prefix [] inputs = inputs
overlay_secrets prefix ((k, v) ∷ secrets) inputs =
    overlay_secrets prefix secrets
      (elim (cut_prefix prefix k) [ none ↦ inputs | some name ↦ insert name v inputs ])

abbrev pub input_prefix : PlanStep → Text
input_prefix step = text "$with:" ++ step.id ++ text ":"

-- `env` with the paths of the files of the step.
unfoldable pub with_files : Host → ℕ → Map Text Text → Map Text Text
with_files host i env = insert (text "GITHUB_STEP_SUMMARY") (host.file_of i (text ".summary")) (
    insert (text "GITHUB_STATE") (host.file_of i (text ".state")) (
      insert (text "GITHUB_PATH") (host.file_of i (text ".path")) (
        insert (text "GITHUB_OUTPUT") (host.file_of i (text ".output"))
          (insert (text "GITHUB_ENV") (host.file_of i (text ".env")) env))))

unfoldable pub add_all : Map Text Text → Map Text Text → Map Text Text
add_all [] env = env
add_all ((k, v) ∷ m) env = add_all m (insert k v env)

-- `stepEnv`
unfoldable pub step_env : PlanStep → List Text → Map Text Text → Map Text Text
unfolding add_all join
step_env step paths env =
    let all = add_all step.run.env env in
    if is_empty paths
    then all
    else insert (text "PATH")
        (join (text ":") paths
          ++ text ":"
          ++ (elim (lookup (text "PATH") all) [ none ↦ [] | some v ↦ v ]))
        all
