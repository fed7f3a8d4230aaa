-- ===== src/Executor/Engine/Status.antt =====
-- The status of the job that the expressions of its steps see.
use mathlib.Core.Path.{subst}
use forgelet.Prelude.{
  ℕ, false, List, [], ◌∷◌, Text, text, text_key, Map, is, is_empty, lookup, insert, ◌||◌, inl, inr,
  ◌≡◌, refl, sym, ap, ◌∙◌, Bool-cases, Option-cases, All, Text-discrete, if_pos, if_neg,
}
use forgelet.Run.Records.{JobRunId}
use forgelet.Expression.Value.{Float}
use forgelet.Expression.Functions.{Json}
use forgelet.Expression.Errors.{ok}
use forgelet.Expression.Conditions.{evaluate_condition}
use forgelet.Expression.Lexer.{parse}
use forgelet.Expression.Eval.{eval}
use forgelet.Expression.Env.{with_context}
use forgelet.Expression.Parser.{parse_or}
use forgelet.Expression.Parser.{match}
use forgelet.Expression.Parser.{keyword}
use forgelet.Expression.Tokens.{Punct-discrete}
use forgelet.Expression.Parser.{match_comparison}
use forgelet.Expression.Functions.{function_named}
use forgelet.Expression.Functions.{apply}
use forgelet.Expression.Value.{truthy}
use forgelet.Expression.Env.{lookup_context}
use forgelet.Executor.Command.{Command, parse_command}
use forgelet.Executor.Plan.{PlanStep, Plan}
use forgelet.Executor.Context.{expr_env, StepState, has_failed, job_status_for}
use forgelet.Executor.Engine.{
  Host, Ran, Job, Round, next, fail_before, fail_after, cancel_at, emit_command, emit_line,
  emit_lines, fold_files, record_step, settle, close, skip_step, pass_step, with_files, step_env,
}
use forgelet.Executor.Engine.Rule.{run_step-rule}
use forgelet.Executor.Engine.Rounds.{Verdict-cases}
use forgelet.Executor.Engine.Run.{run_step}

-- No step has failed but for those that were continued.
abbrev IsSound : Map Text StepState → Type 0
IsSound = All (λ e. has_failed e.1 ≡ false)

insert-IsSound :
    (id : Text) (st : StepState) (m : Map Text StepState)
    → has_failed st ≡ false
    → IsSound m
    → IsSound (insert id st m)
unfolding insert
insert-IsSound id st [] h k = (h, tt)
insert-IsSound id st ((j, w) ∷ m) h k = elim (text_key.dec j id) [
  | yes e ↦ rw (if_pos (text_key.dec j id) e) (h, k.1)
  | no e ↦ rw (if_neg (text_key.dec j id) e) (k.0, insert-IsSound id st m h k.1)
]

job_status_for-IsSound : (m : Map Text StepState) → IsSound m → job_status_for m ≡ text "success"
unfolding job_status_for
job_status_for-IsSound [] h = refl
job_status_for-IsSound ((id, st) ∷ m) h = rw (job_status_for, h.0) (job_status_for-IsSound m h.1)

emit_command-states : (c : Command) (job : Job) → (emit_command c job).states ≡ job.states
unfolding emit_command
emit_command-states c job = elim (Bool-cases (is c.name (text "add-mask"))) [
  | inl a ↦ rw (emit_command, a) refl
  | inr a ↦ elim (Bool-cases (is c.name (text "group") || is c.name (text "endgroup"))) [
    | inl g ↦ rw (emit_command, a, g) refl
    | inr g ↦ rw (emit_command, a, g) refl
  ]
]

emit_line-states : (line : Text) (job : Job) → (emit_line line job).states ≡ job.states
unfolding emit_line
emit_line-states line job = elim (Option-cases (parse_command line)) [
  | inl e ↦ rw (emit_line, e) refl
  | inr (c, e) ↦ rw (emit_line, e) (emit_command-states c job)
]

emit_lines-states : (lines : List Text) (job : Job) → (emit_lines lines job).states ≡ job.states
unfolding emit_lines
emit_lines-states [] job = refl
emit_lines-states (line ∷ lines) job =
    emit_lines-states lines (emit_line line job) ∙ emit_line-states line job

abbrev SoundRound : Round → Type 0
SoundRound (next job) = IsSound job.states
SoundRound (fail_before e job) = Unit
SoundRound (fail_after e job) = Unit
SoundRound (cancel_at e job) = Unit

settle-SoundRound :
    (step : PlanStep) (r : Ran) (job : Job) → IsSound job.states → SoundRound (settle step r job)
unfolding settle record_step
settle-SoundRound step r job k = elim (Verdict-cases r.verdict) [
  | inl e ↦ rw (settle, e) (insert-IsSound step.id _ job.states refl k)
  | inr (inl e) ↦ rw (settle, e) tt
  | inr (inr e) ↦ elim (Bool-cases step.continue_on_error) [
    | inl c ↦ rw (settle, e, c) (insert-IsSound step.id _ job.states refl k)
    | inr c ↦ rw (settle, e, c) tt
  ]
]

close-SoundRound :
    (step : PlanStep) (r : Ran) (job : Job) → IsSound job.states → SoundRound (close step r job)
unfolding close fold_files
close-SoundRound step r job k =
    settle-SoundRound step r (fold_files step r (emit_lines r.lines job)) (
      insert-IsSound step.id _ (emit_lines r.lines job).states refl
        (subst IsSound (sym (emit_lines-states r.lines job)) k))

-- The jobs that the loop meets: the first one has no state of a step, and each other one is what
-- a round left when the loop goes on.
pub data Met (N : Type 0) ⦃float : Float N⦄ ⦃json : Json N⦄ (host : Host) (id : JobRunId) (p : Plan)
    (secrets : Map Text Text) : Job → Type 0 where
  first : (job : Job) → job.states ≡ [] → Met N host id p secrets job
  later :
      (i : ℕ) (step : PlanStep) (job after : Job)
      → Met N host id p secrets job
      → run_step N host id p i step secrets (record job { env = with_files host i job.env })
        ≡ next after
      → Met N host id p secrets after

module _ (N : Type 0) ⦃float : Float N⦄ ⦃json : Json N⦄ (host : Host) (id : JobRunId) (p : Plan)
    (secrets : Map Text Text) where
  run_step-SoundRound :
      (i : ℕ) (step : PlanStep) (job : Job)
      → IsSound job.states
      → SoundRound (run_step N host id p i step secrets job)
  unfolding pass_step skip_step
  run_step-SoundRound i step job k =
      run_step-rule N host id p i step secrets job SoundRound (record {
        refused = λ e. tt;
        closed = λ r a. close-SoundRound step r job k;
        passed = λ c. insert-IsSound step.id _ job.states refl k;
        skipped_over = λ f. insert-IsSound step.id _ job.states refl k;
      })

  Met-IsSound : (job : Job) → Met N host id p secrets job → IsSound job.states
  Met-IsSound job (first _ e) = subst IsSound (sym e) tt
  Met-IsSound job (later i step before _ m e) = subst SoundRound e (
      run_step-SoundRound i step (record before { env = with_files host i before.env })
        (Met-IsSound before m))

  -- At every step that the loop comes to, the status of the job is `success`.
  job_status_for-Met :
      (job : Job) → Met N host id p secrets job → job_status_for job.states ≡ text "success"
  job_status_for-Met job m = job_status_for-IsSound job.states (Met-IsSound job m)

module _ (N : Type 0) ⦃float : Float N⦄ ⦃json : Json N⦄ where
  failure_false :
      (host : Host) (p : Plan) (env : Map Text Text) (states : Map Text StepState)
      → evaluate_condition
          (expr_env {N = N} host.hasher host.os host.arch p env states)
          (text "failure()")
        ≡ ok false
  unfolding evaluate_condition expr_env parse Text-discrete eval with_context parse_or match keyword
      Punct-discrete match_comparison function_named lookup apply truthy lookup_context insert
  failure_false host p env states = refl

  -- A step with the condition `failure()` is skipped at every point of every run, whatever went
  -- before it.
  pub run_step-failure :
      (host : Host) (id : JobRunId) (p : Plan) (i : ℕ) (step : PlanStep) (secrets : Map Text Text)
      (job : Job)
      → step.condition ≡ text "failure()"
      → run_step N host id p i step secrets job ≡ next (skip_step step job)
  unfolding run_step
  run_step-failure host id p i step secrets job c =
      let env = step_env step job.path_entries job.env in
      let filled : is_empty step.condition ≡ false = ap is_empty c in
      let fails =
        ap
          (λ t.
            evaluate_condition {N = N}
              (expr_env {N = N} host.hasher host.os host.arch p env job.states) t)
          c
        ∙ failure_false host p env job.states in
      rw (run_step, filled, fails) refl
