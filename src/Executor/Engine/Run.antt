-- ===== src/Executor/Engine/Run.antt =====
-- internal/runtime/executor/engine.go: `Run`, over the pieces of Engine.
use forgelet.Prelude.{
  ℕ, suc, true, false, not, none, some, List, [], ◌∷◌, ◌++◌, Text, text, text_key, Map, lookup,
  insert, is_empty, cut_prefix, to_lower, if◌then◌else◌, ◌⊎◌, inl, inr,
}
use forgelet.Run.Records.{JobRunId}
use forgelet.Expression.Errors.{ok, err}
use forgelet.Expression.Value.{Float}
use forgelet.Expression.Functions.{Json}
use forgelet.Expression.Env.{Env}
use forgelet.Expression.Conditions.{has_expression, interpolate, evaluate_condition}
use forgelet.Executor.Mask.{Masker, new_masker, add}
use forgelet.Executor.Plan.{
  SecretRef, BuiltinStep, JsStep, PlanStep, Plan, skipped, StepResult, JobError, bad_job_env,
  cancelled_before, bad_condition, bad_script, bad_input, bad_step_env, builtin_not_found,
  JobResult,
}
use forgelet.Executor.Context.{job_env, expr_env}
use forgelet.Executor.Engine.{
  Host, Job, LogLine, Round, next, fail_before, fail_after, cancel_at, close, skip_step, pass_step,
  from_handler, from_process, unrun, overlay_secrets, input_prefix, with_files, step_env, add_all,
}

-- How `Run` ends: the error that it returns, if any.
pub data Ending : Type 0 where
  succeeded step_failed cancelled infrastructure : Ending

-- What `Run` returns, and the reports that it made.
pub record Ended : Type 0 where
  pub result : JobResult
  pub ending : Ending
  pub reports : List JobResult
  pub log : List LogLine

-- The names of the environment of every job.
unfoldable pub base_env : Host → Plan → Map Text Text
unfolding add_all to_lower
base_env host p = insert (text "GITHUB_JOB") (text "jobrun-" ++ to_lower p.job_run_id) (
    insert (text "GITHUB_REF") p.ref (
      insert (text "GITHUB_SHA") p.sha
        (insert (text "CI") (text "true") (add_all p.env (add_all host.default_env [])))))

-- The fetched secrets: the environment, the masker and the secrets for inputs.
pub record Secrets : Type 0 where
  pub env : Map Text Text
  pub masker : Masker
  pub inputs : Map Text Text

unfoldable pub add_secret : SecretRef → Text → Secrets → Secrets
unfolding add cut_prefix
add_secret ref val s =
    let m = add val s.masker in
    elim (cut_prefix (text "$with:") ref.env) [
      | some rest ↦ record s { masker = m; inputs = insert ref.env val s.inputs }
      | none ↦
          if not (is_empty ref.env)
          then record s { masker = m; env = insert ref.env val s.env }
          else record s { masker = m }
    ]

-- The loop over the references.
unfoldable pub add_secrets : Map Text Text → List SecretRef → Secrets → Secrets
unfolding add_secret
add_secrets values [] s = s
add_secrets values (ref ∷ refs) s =
    add_secrets values refs (elim (lookup (ref.scope ++ text "/" ++ ref.name) values) [
      | none ↦ s
      | some val ↦ add_secret ref val s
    ])

-- `failJob`: the rest of the steps is skipped.
unfoldable pub skip_rest : List PlanStep → List StepResult
skip_rest [] = []
skip_rest (step ∷ steps) = unrun step.id skipped skipped ∷ skip_rest steps

-- A result that is reported and returned.
abbrev pub report : Ending → JobResult → List LogLine → Ended
report ending result log = record {
  result = result;
  ending = ending;
  reports = result ∷ [];
  log = log;
}

-- The result at first.
abbrev pub new_result : JobRunId → JobResult
new_result id = record {
  job_run_id = id;
  success = false;
  cancelled = false;
  steps = [];
  error = none;
}

unfoldable pub fail_job : JobRunId → JobError → List PlanStep → Job → Ended
unfolding skip_rest
fail_job id e rest job =
    report step_failed
      (record (new_result id) { steps = job.results ++ skip_rest rest; error = some e }) job.log

unfoldable pub cancel_job : JobRunId → JobError → Job → Ended
cancel_job id e job =
    report cancelled
      (record (new_result id) { cancelled = true; steps = job.results; error = some e }) job.log

unfoldable pub succeed : JobRunId → Job → Ended
succeed id job =
    report succeeded (record (new_result id) { success = true; steps = job.results }) job.log

-- An error of the machine or of the control plane: nothing is reported.
unfoldable pub give_up : JobRunId → List StepResult → List LogLine → Ended
give_up id results log = record {
  result = record (new_result id) { steps = results };
  ending = infrastructure;
  reports = [];
  log = log;
}

-- `finalInputs["script"]`, or the script of the step.
abbrev pub script_of : JsStep → Map Text Text → Text
script_of js inputs = elim (lookup (text "script") inputs) [
  | none ↦ js.script
  | some s ↦ if is_empty s then js.script else s
]

module _ {N : Type 0} ⦃float : Float N⦄ ⦃json : Json N⦄ (host : Host) where
  -- The values of a map with their expressions rendered, or the key of one that fails.
  unfoldable pub render_values : Env N → Map Text Text → Map Text Text ⊎ Text
  unfolding has_expression interpolate
  render_values env [] = inl []
  render_values env ((k, v) ∷ m) = elim (if has_expression v then interpolate env v else ok v) [
    | err e ↦ inr k
    | ok rendered ↦ elim (render_values env m) [
      | inr j ↦ inr j
      | inl rest ↦ inl ((k, rendered) ∷ rest)
    ]
  ]

  -- The variables of the step that hold expressions, rendered into its environment.
  unfoldable pub render_step_env : Env N → Map Text Text → Map Text Text → Map Text Text ⊎ Text
  unfolding has_expression interpolate
  render_step_env env [] all = inl all
  render_step_env env ((k, v) ∷ m) all =
      if has_expression v
      then (elim (interpolate env v) [
        | err e ↦ inr k
        | ok rendered ↦ render_step_env env m (insert k rendered all)
      ])
      else render_step_env env m all

  -- The inputs of a step with the secrets over them.
  unfoldable pub final_inputs :
      PlanStep → Env N → Map Text Text → Map Text Text → Map Text Text ⊎ JobError
  unfolding render_values overlay_secrets
  final_inputs step env secrets inputs = elim (render_values env inputs) [
    | inr k ↦ inr (bad_input step.id k)
    | inl rendered ↦ inl (overlay_secrets (input_prefix step) secrets rendered)
  ]

  unfoldable pub run_js_step :
      ℕ → PlanStep → JsStep → Env N → Map Text Text → Map Text Text → Job → Round
  unfolding final_inputs close
  run_js_step i step js env secrets all job = elim (final_inputs step env secrets js.inputs) [
    | inr e ↦ fail_before e job
    | inl inputs ↦ close step (from_handler (host.run_js i js (script_of js inputs) inputs all)) job
  ]

  unfoldable pub run_builtin_step :
      ℕ → PlanStep → BuiltinStep → Env N → Map Text Text → Map Text Text → Job → Round
  unfolding final_inputs close
  run_builtin_step i step b env secrets all job = elim (final_inputs step env secrets b.inputs) [
    | inr e ↦ fail_before e job
    | inl inputs ↦ elim (host.builtin b.action) [
      | none ↦ fail_before (builtin_not_found b.action) job
      | some handler ↦ close step (from_handler (handler i inputs all)) job
    ]
  ]

  unfoldable pub run_shell_step : ℕ → PlanStep → Env N → Map Text Text → Job → Round
  unfolding render_step_env close has_expression interpolate
  run_shell_step i step env all job =
      elim (if has_expression step.run.script
        then interpolate env step.run.script
        else ok step.run.script) [
          | err e ↦ fail_before (bad_script step.id) job
          | ok script ↦ elim (render_step_env env step.run.env all) [
            | inr k ↦ fail_before (bad_step_env step.id k) job
            | inl vars ↦ close step (from_process (host.run_script i step script vars)) job
          ]
        ]

  -- A step whose condition holds.
  unfoldable pub execute : ℕ → PlanStep → Env N → Map Text Text → Map Text Text → Job → Round
  unfolding run_js_step run_builtin_step run_shell_step pass_step
  execute i step env secrets all job = elim step.js [
    | some js ↦ run_js_step i step js env secrets all job
    | none ↦ if step.composite then next (pass_step step job) else (elim step.builtin [
      | some b ↦ run_builtin_step i step b env secrets all job
      | none ↦ run_shell_step i step env all job
    ])
  ]

module _ (N : Type 0) ⦃float : Float N⦄ ⦃json : Json N⦄ (host : Host) (id : JobRunId)
    (p : Plan) where
  -- A step, from its condition on.
  unfoldable pub run_step : ℕ → PlanStep → Map Text Text → Job → Round
  unfolding execute step_env expr_env evaluate_condition skip_step
  run_step i step secrets job =
      let all = step_env step job.path_entries job.env in
      let env : Env N = expr_env host.hasher host.os host.arch p all job.states in
      if is_empty step.condition
      then execute host i step env secrets all job
      else (elim (evaluate_condition env step.condition) [
        | err e ↦ fail_before (bad_condition step.id) job
        | ok holds ↦
            if holds then execute host i step env secrets all job else next (skip_step step job)
      ])

  -- The loop over the steps, from the one with the index `i`.
  unfoldable pub run_steps : ℕ → List PlanStep → Map Text Text → Job → Ended
  unfolding run_step with_files fail_job cancel_job succeed give_up
  run_steps i [] secrets job = succeed id job
  run_steps i (step ∷ steps) secrets job =
      if host.is_done i
      then cancel_job id (cancelled_before step.id) job
      else (if not (host.prepare i)
          then give_up id job.results job.log
          else (elim (run_step i step secrets (record job { env = with_files host i job.env })) [
            | fail_before e after ↦ fail_job id e (step ∷ steps) after
            | fail_after e after ↦ fail_job id e steps after
            | cancel_at e after ↦ cancel_job id e after
            | next after ↦ run_steps (suc i) steps secrets after
          ]))

  -- The steps, with the secrets that were fetched.
  unfoldable pub run_with : Secrets → Ended
  unfolding run_steps
  run_with s =
      if not host.make_dir
      then give_up id [] []
      else run_steps 0 p.steps s.inputs (record {
        env = s.env;
        states = [];
        path_entries = [];
        masker = s.masker;
        log = [];
        results = [];
      })

  -- `Run`
  unfoldable pub run : Ended
  unfolding base_env render_values job_env add_secrets run_with
  run = elim (render_values host (job_env {N = N} host.hasher p) (base_env host p)) [
    | inr k ↦ report step_failed (record (new_result id) { error = some (bad_job_env k) }) []
    | inl env ↦
        let s : Secrets = record { env = env; masker = new_masker; inputs = [] } in
        if is_empty p.secret_refs then run_with s else (elim (host.fetch_secrets p.secret_refs) [
          | none ↦ give_up id [] []
          | some values ↦ run_with (add_secrets values p.secret_refs s)
        ])
  ]
