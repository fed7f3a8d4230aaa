-- ===== src/Executor/Engine/Rounds.antt =====
-- What one round of the loop over the steps adds to the results.
use mathlib.Core.Path.{subst}
use forgelet.Prelude.{
  sym, ℕ, true, false, List, [], ◌∷◌, ◌++◌, Text, text, text_key, Map, is, ◌⊎◌, inl, inr, ◌≡◌, refl,
  ◌∙◌, Bool-cases, Option-cases, ◌||◌,
}
use forgelet.Run.Records.{JobRunId}
use forgelet.Expression.Value.{Float}
use forgelet.Expression.Functions.{Json}
use forgelet.Executor.Command.{Command, parse_command}
use forgelet.Executor.Plan.{step_failed, PlanStep, Plan, success, failure, skipped, StepResult}
use forgelet.Executor.Engine.{
  Host, Ran, Verdict, finished, cancelled, broken, Job, Round, next, fail_before, fail_after,
  cancel_at, emit_command, emit_line, emit_lines, fold_files, record_step, settle, close, skip_step,
  pass_step, result_of, unrun,
}
use forgelet.Executor.Engine.Run.{run_step}
use forgelet.Executor.Engine.Rule.{Answers, SeenFalse, run_step-rule}

module _ (N : Type 0) ⦃float : Float N⦄ ⦃json : Json N⦄ (host : Host) (p : Plan) where
  -- The job goes on after the step: its condition is false, it is composite, or it was run, without
  -- an error or with an error and continue-on-error. The result says which.
  abbrev pub Went : ℕ → PlanStep → StepResult → Type 0
  Went i step r =
      (SeenFalse N host p step × (r ≡ unrun step.id skipped skipped))
      ⊎ ((step.composite ≡ true) × (r ≡ unrun step.id success success))
      ⊎ ((ran : Ran) × Answers host i step ran
          × (((ran.verdict ≡ finished) × (r ≡ result_of step ran success success))
              ⊎ ((ran.verdict ≡ broken)
                  × (step.continue_on_error ≡ true)
                  × (r ≡ result_of step ran failure success))))

  -- The step was run and failed without continue-on-error.
  abbrev pub Broke : ℕ → PlanStep → StepResult → Type 0
  Broke i step r =
      (ran : Ran) × Answers host i step ran
      × (ran.verdict ≡ broken)
      × (step.continue_on_error ≡ false)
      × (r ≡ result_of step ran failure failure)

  abbrev pub Adds : ℕ → PlanStep → Job → Round → Type 0
  Adds i step job (next after) =
      (r : StepResult) × (after.results ≡ job.results ++ r ∷ []) × Went i step r
  Adds i step job (fail_before e after) = after.results ≡ job.results
  Adds i step job (fail_after e after) =
      (r : StepResult) × (after.results ≡ job.results ++ r ∷ []) × Broke i step r
  Adds i step job (cancel_at e after) =
      (after.results ≡ job.results)
      × ((ran : Ran) × Answers host i step ran × (ran.verdict ≡ cancelled))

emit_command-results : (c : Command) (job : Job) → (emit_command c job).results ≡ job.results
unfolding emit_command
emit_command-results c job = elim (Bool-cases (is c.name (text "add-mask"))) [
  | inl a ↦ rw (emit_command, a) refl
  | inr a ↦ elim (Bool-cases (is c.name (text "group") || is c.name (text "endgroup"))) [
    | inl g ↦ rw (emit_command, a, g) refl
    | inr g ↦ rw (emit_command, a, g) refl
  ]
]

emit_line-results : (line : Text) (job : Job) → (emit_line line job).results ≡ job.results
unfolding emit_line
emit_line-results line job = elim (Option-cases (parse_command line)) [
  | inl e ↦ rw (emit_line, e) refl
  | inr (c, e) ↦ rw (emit_line, e) (emit_command-results c job)
]

emit_lines-results : (lines : List Text) (job : Job) → (emit_lines lines job).results ≡ job.results
unfolding emit_lines
emit_lines-results [] job = refl
emit_lines-results (line ∷ lines) job =
    emit_lines-results lines (emit_line line job) ∙ emit_line-results line job

pub Verdict-cases : (v : Verdict) → (v ≡ finished) ⊎ (v ≡ cancelled) ⊎ (v ≡ broken)
Verdict-cases finished = inl refl
Verdict-cases cancelled = inr (inl refl)
Verdict-cases broken = inr (inr refl)

module _ (N : Type 0) ⦃float : Float N⦄ ⦃json : Json N⦄ (host : Host) (p : Plan) where
  settle-Adds :
      (i : ℕ) (step : PlanStep) (r : Ran) (job : Job)
      → Answers host i step r
      → Adds N host p i step job (settle step r job)
  unfolding settle record_step
  settle-Adds i step r job a = elim (Verdict-cases r.verdict) [
    | inl e ↦
        rw (settle, e) (result_of step r success success, refl, inr (inr (r, a, inl (e, refl))))
    | inr (inl e) ↦ rw (settle, e) (refl, (r, a, e))
    | inr (inr e) ↦ elim (Bool-cases step.continue_on_error) [
      | inl c ↦
          let q : settle step r job ≡ next (record_step step r failure success job) =
            rw (settle, e, c) refl in
          subst (Adds N host p i step job) (sym q)
            (result_of step r failure success, refl, inr (inr (r, a, inr (e, c, refl))))
      | inr c ↦
          let q : settle step r job
              ≡ fail_after (step_failed step.id r.exit)
                  (record job { results = job.results ++ result_of step r failure failure ∷ [] }) =
            rw (settle, e, c) refl in
          subst (Adds N host p i step job) (sym q)
            (result_of step r failure failure, refl, (r, a, e, c, refl))
    ]
  ]

  Adds-from :
      (i : ℕ) (step : PlanStep) (job job' : Job) (round : Round)
      → job'.results ≡ job.results
      → Adds N host p i step job' round
      → Adds N host p i step job round
  Adds-from i step job job' (next after) e (r, a, w) = (r, rw e at a, w)
  Adds-from i step job job' (fail_before d after) e a = a ∙ e
  Adds-from i step job job' (fail_after d after) e (r, a, w) = (r, rw e at a, w)
  Adds-from i step job job' (cancel_at d after) e (a, c) = (a ∙ e, c)

  close-Adds :
      (i : ℕ) (step : PlanStep) (r : Ran) (job : Job)
      → Answers host i step r
      → Adds N host p i step job (close step r job)
  unfolding close fold_files
  close-Adds i step r job a =
      Adds-from i step job (fold_files step r (emit_lines r.lines job))
        (settle step r (fold_files step r (emit_lines r.lines job)))
        (emit_lines-results r.lines job)
        (settle-Adds i step r (fold_files step r (emit_lines r.lines job)) a)

  pub run_step-Adds :
      (id : JobRunId) (i : ℕ) (step : PlanStep) (secrets : Map Text Text) (job : Job)
      → Adds N host p i step job (run_step N host id p i step secrets job)
  unfolding pass_step skip_step
  run_step-Adds id i step secrets job =
      run_step-rule N host id p i step secrets job (Adds N host p i step job) (record {
        refused = λ e. refl;
        closed = λ r a. close-Adds i step r job a;
        passed = λ c. (unrun step.id success success, refl, inr (inl (c, refl)));
        skipped_over = λ f. (unrun step.id skipped skipped, refl, inl (f, refl));
      })
