-- ===== src/Executor/Engine/Rule.antt =====
-- A rule for a statement about the end of a round, whatever kind of step it is.
use forgelet.Prelude.{
  true, false, none, some, ◌∙◌, ap, ℕ, Text, Map, is_empty, if◌then◌else◌, ◌⊎◌, inl, inr, ◌≡◌, refl,
  Bool-cases, Option-cases, Result-cases,
}
use forgelet.Run.Records.{JobRunId}
use forgelet.Expression.Errors.{Outcome, ok, err, EngineError}
use forgelet.Expression.Value.{Float}
use forgelet.Expression.Functions.{Json}
use forgelet.Expression.Env.{Env}
use forgelet.Expression.Conditions.{has_expression, interpolate, evaluate_condition}
use forgelet.Executor.Plan.{BuiltinStep, JsStep, PlanStep, Plan, JobError}
use forgelet.Executor.Context.{expr_env, StepState}
use forgelet.Executor.Engine.{
  Host, Ran, Job, Round, next, fail_before, close, skip_step, pass_step, from_handler, from_process,
  step_env,
}
use forgelet.Executor.Engine.Run.{
  script_of, final_inputs, render_step_env, run_js_step, run_builtin_step, run_shell_step, execute,
  run_step,
}

-- What the step was answered when it was run: by the script, by the builtin or by the process that
-- the host has for it, under the index of the step.
abbrev pub Answers : Host → ℕ → PlanStep → Ran → Type 0
Answers host i step r =
    ((js : JsStep) × (inputs all : Map Text Text) × (step.js ≡ some js)
      × (r ≡ from_handler (host.run_js i js (script_of js inputs) inputs all)))
    ⊎ ((b : BuiltinStep) × (handler : ℕ → Map Text Text → Map Text Text → Ran) × (inputs all : Map
          Text Text)
        × (step.js ≡ none)
        × (step.builtin ≡ some b)
        × (host.builtin b.action ≡ some handler)
        × (r ≡ from_handler (handler i inputs all)))
    ⊎ ((script : Text) × (vars : Map Text Text) × (step.js ≡ none)
        × (step.builtin ≡ none)
        × (r ≡ from_process (host.run_script i step script vars)))

-- The condition of the step is false under some variables and some states of the steps before.
abbrev pub SeenFalse :
    (N : Type 0) ⦃float : Float N⦄ ⦃json : Json N⦄ → Host → Plan → PlanStep → Type 0
SeenFalse N host p step =
    (vars : Map Text Text) × (states : Map Text StepState) × (evaluate_condition {N = N}
        (expr_env host.hasher host.os host.arch p vars states) step.condition
      ≡ ok false)

-- What to show: of a step that is refused, of one that was run, of a composite one, and of one
-- whose condition is false.
pub record Rule (N : Type 0) ⦃float : Float N⦄ ⦃json : Json N⦄ (host : Host) (p : Plan) (i : ℕ)
    (step : PlanStep) (job : Job) (P : Round → Type 0) : Type 0 where
  pub refused : (e : JobError) → P (fail_before e job)
  pub closed : (r : Ran) → Answers host i step r → P (close step r job)
  pub passed : step.composite ≡ true → P (next (pass_step step job))
  pub skipped_over : SeenFalse N host p step → P (next (skip_step step job))

pub Outcome-cases :
    {A : Type 0} (o : Outcome A) → ((a : A) × (o ≡ ok a)) ⊎ ((e : EngineError) × (o ≡ err e))
Outcome-cases (ok a) = inl (a, refl)
Outcome-cases (err e) = inr (e, refl)

module _ {N : Type 0} ⦃float : Float N⦄ ⦃json : Json N⦄ (host : Host) (p : Plan) where
  run_js_step-rule :
      (i : ℕ) (step : PlanStep) (js : JsStep) (env : Env N) (secrets all : Map Text Text)
      (job : Job) (P : Round → Type 0)
      → step.js ≡ some js
      → Rule N host p i step job P
      → P (run_js_step host i step js env secrets all job)
  unfolding run_js_step
  run_js_step-rule i step js env secrets all job P w rule =
      elim (Result-cases (final_inputs host step env secrets js.inputs)) [
        | inr (e, q) ↦ rw (run_js_step, q) (rule.refused _)
        | inl (inputs, q) ↦
            rw (run_js_step, q)
              (rule.closed (from_handler (host.run_js i js (script_of js inputs) inputs all))
                (inl (js, inputs, all, w, refl)))
      ]

  run_builtin_step-rule :
      (i : ℕ) (step : PlanStep) (b : BuiltinStep) (env : Env N) (secrets all : Map Text Text)
      (job : Job) (P : Round → Type 0)
      → step.js ≡ none
      → step.builtin ≡ some b
      → Rule N host p i step job P
      → P (run_builtin_step host i step b env secrets all job)
  unfolding run_builtin_step
  run_builtin_step-rule i step b env secrets all job P u w rule =
      elim (Result-cases (final_inputs host step env secrets b.inputs)) [
        | inr (e, q) ↦ rw (run_builtin_step, q) (rule.refused _)
        | inl (inputs, q) ↦ elim (Option-cases (host.builtin b.action)) [
          | inl h ↦ rw (run_builtin_step, q, h) (rule.refused _)
          | inr (handler, h) ↦
              rw (run_builtin_step, q, h)
                (rule.closed (from_handler (handler i inputs all))
                  (inr (inl (b, handler, inputs, all, u, w, h, refl))))
        ]
      ]

  run_shell_step-rule :
      (i : ℕ) (step : PlanStep) (env : Env N) (all : Map Text Text) (job : Job) (P : Round → Type 0)
      → step.js ≡ none
      → step.builtin ≡ none
      → Rule N host p i step job P
      → P (run_shell_step host i step env all job)
  unfolding run_shell_step
  run_shell_step-rule i step env all job P u w rule =
      elim (Outcome-cases (
        if has_expression step.run.script
        then interpolate env step.run.script
        else ok step.run.script)) [
          | inr (e, q) ↦ rw (run_shell_step, q) (rule.refused _)
          | inl (script, q) ↦ elim (Result-cases (render_step_env host env step.run.env all)) [
            | inr (k, v) ↦ rw (run_shell_step, q, v) (rule.refused _)
            | inl (vars, v) ↦
                rw (run_shell_step, q, v)
                  (rule.closed (from_process (host.run_script i step script vars))
                    (inr (inr (script, vars, u, w, refl))))
          ]
        ]

  execute-rule :
      (i : ℕ) (step : PlanStep) (env : Env N) (secrets all : Map Text Text) (job : Job)
      (P : Round → Type 0)
      → Rule N host p i step job P
      → P (execute host i step env secrets all job)
  unfolding execute
  execute-rule i step env secrets all job P rule = elim (Option-cases step.js) [
    | inr (js, q) ↦ rw (execute, q) (run_js_step-rule i step js env secrets all job P q rule)
    | inl q ↦ elim (Bool-cases step.composite) [
      | inl c ↦ rw (execute, q, c) (rule.passed c)
      | inr c ↦ elim (Option-cases step.builtin) [
        | inr (b, h) ↦
            rw (execute, q, c, h) (run_builtin_step-rule i step b env secrets all job P q h rule)
        | inl h ↦ rw (execute, q, c, h) (run_shell_step-rule i step env all job P q h rule)
      ]
    ]
  ]

module _ (N : Type 0) ⦃float : Float N⦄ ⦃json : Json N⦄ (host : Host) (id : JobRunId)
    (p : Plan) where
  pub run_step-rule :
      (i : ℕ) (step : PlanStep) (secrets : Map Text Text) (job : Job) (P : Round → Type 0)
      → Rule N host p i step job P
      → P (run_step N host id p i step secrets job)
  unfolding run_step
  run_step-rule i step secrets job P rule = elim (Bool-cases (is_empty step.condition)) [
    | inl c ↦ rw (run_step, c) (execute-rule host p i step _ secrets _ job P rule)
    | inr c ↦
        elim (Outcome-cases (
          evaluate_condition {N = N}
            (expr_env host.hasher host.os host.arch p (step_env step job.path_entries job.env)
              job.states)
            step.condition)) [
              | inr (e, q) ↦ rw (run_step, c, q) (rule.refused _)
              | inl (holds, q) ↦ elim (Bool-cases holds) [
                | inl h ↦ rw (run_step, c, q, h) (execute-rule host p i step _ secrets _ job P rule)
                | inr h ↦
                    rw (run_step, c, q, h)
                      (rule.skipped_over
                        (step_env step job.path_entries job.env, job.states, q ∙ ap ok h))
              ]
            ]
  ]
