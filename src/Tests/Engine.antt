-- ===== src/Tests/Engine.antt =====
-- The run of a job at concrete inputs.
use forgelet.Prelude.{
  ℕ, ◌≡◌, refl, true, false, none, some, [], ◌∷◌, map, Text, text, text_key, Map, is, insert,
  Text-discrete, if◌then◌else◌,
}
use forgelet.Executor.Plan.{SecretRef, PlanStep, Plan, success, failure, skipped, code}
use forgelet.Executor.Mask.{new_masker}
use forgelet.Executor.Engine.{Host, Ran, finished, broken, Job, next, skip_step, with_files}
use forgelet.Executor.Command.{Command}
use forgelet.Executor.Engine.Run.{run, run_step}
use forgelet.Executor.Engine.Status.{run_step-failure}
use forgelet.Tests.Expression.{naturals, no_json}

abbrev shell_step : Text → Text → PlanStep
shell_step id condition = record {
  id = id;
  name = [];
  condition = condition;
  run = record { script = id; shell = []; env = [] };
  builtin = none;
  js = none;
  composite = false;
  continue_on_error = false;
  working_dir = [];
}

abbrev on_failure : PlanStep
on_failure = shell_step (text "report") (text "failure()")

abbrev deploy_key : SecretRef
deploy_key = record { scope = text "repository"; name = text "DEPLOY_KEY"; env = text "KEY" }

abbrev pub plan : Plan
plan = record {
  job_run_id = text "01J";
  repository = record { provider = text "github"; owner = text "acme"; name = text "site" };
  event_name = text "push";
  actor = text "ann";
  sha = text "abc";
  ref = text "refs/heads/main";
  runner_class = text "small";
  env = [];
  steps = shell_step (text "build") [] ∷ shell_step (text "test") [] ∷ on_failure ∷ [];
  secret_refs = deploy_key ∷ [];
  timeout_secs = 60;
}

abbrev ran : Text → Ran
ran id = record {
  verdict = if is id (text "test") then broken else finished;
  exit = if is id (text "test") then code 2 else code 0;
  duration_ms = 5;
  lines = text "key is s3cret" ∷ [];
  outputs = [];
  env_file = [];
  output_file = [];
  path_file = [];
  state_file = [];
}

abbrev values : Map Text Text
values = (text "repository/DEPLOY_KEY", text "s3cret") ∷ []

-- A machine on which the script `test` fails.
abbrev host : Host
host = record {
  default_env = [];
  hasher = λ ps. none;
  os = text "linux";
  arch = text "amd64";
  fetch_secrets = λ refs. some values;
  make_dir = true;
  is_done = λ i. false;
  file_of = λ i ending. ending;
  prepare = λ i. true;
  run_script = λ i step script env. ran step.id;
  run_js = λ i js script inputs env. ran [];
  builtin = λ action. none;
}

abbrev idle_job : Job
idle_job = record {
  env = [];
  states = [];
  path_entries = [];
  masker = new_masker;
  log = [];
  results = [];
}

abbrev with_paths : Job
with_paths = record idle_job { env = with_files host 0 [] }

abbrev masking : Ran
masking = record (ran (text "build")) {
  lines = text "before" ∷ text "::add-mask::t0ken" ∷ text "t0ken" ∷ [];
}

-- A machine on which each script masks a value.
abbrev masking_host : Host
masking_host = record host { run_script = λ i step script env. masking }

abbrev add_mask : Command
add_mask = record { name = text "add-mask"; parameters = []; message = text "t0ken" }

abbrev masking_paths : Job
masking_paths = record idle_job { env = with_files masking_host 0 [] }

run_step-failure_example :
    run_step ℕ host (text "01J") plan 0 on_failure [] with_paths
    ≡ next (skip_step on_failure with_paths)
run_step-failure_example = run_step-failure ℕ host (text "01J") plan 0 on_failure [] with_paths refl

-- The outcomes of the steps: the failure of `test` ends the job.
run-outcomes :
    map (λ r. r.outcome) (run ℕ host (text "01J") plan).result.steps
    ≡ success ∷ failure ∷ skipped ∷ []
unfolding run insert Text-discrete
run-outcomes = refl
