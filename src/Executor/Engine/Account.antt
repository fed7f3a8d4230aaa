-- ===== src/Executor/Engine/Account.antt =====
-- What `Run` returns and reports, whatever the host answers.
use forgelet.Prelude.{ℕ, suc, true, false, List, [], ◌∷◌, ◌++◌, Text, ◌⊎◌, ◌≡◌, some, length}
use forgelet.Expression.Value.{Float}
use forgelet.Expression.Functions.{Json}
use forgelet.Executor.Plan.{PlanStep, Plan, StepResult, bad_job_env}
use forgelet.Executor.Engine.{Host}
use forgelet.Executor.Engine.Rounds.{Went, Broke}
use forgelet.Executor.Engine.Run.{
  succeeded, step_failed, cancelled, infrastructure, Ended, skip_rest,
}

module _ (N : Type 0) ⦃float : Float N⦄ ⦃json : Json N⦄ (host : Host) (p : Plan) where
  -- The results say how it went with each of the steps, the first of which has the index `i`.
  abbrev pub AllWent : ℕ → List PlanStep → List StepResult → Type 0
  AllWent i [] [] = Unit
  AllWent i [] (r ∷ rs) = ⊥
  AllWent i (step ∷ steps) [] = ⊥
  AllWent i (step ∷ steps) (r ∷ rs) = Went N host p i step r × AllWent (suc i) steps rs

  -- The results of the steps before the one at which the job stopped.
  abbrev pub Stopped : List PlanStep → List StepResult → Type 0
  Stopped steps results =
      (front : List PlanStep) × (rest : List PlanStep) × (steps ≡ front ++ rest)
      × AllWent 0 front results

  -- The results of a failed job: the steps after which it went on, the step that broke, unless the
  -- job failed before it ran, and the rest, which is skipped.
  abbrev pub Failed : List PlanStep → List StepResult → Type 0
  Failed steps results =
      (front : List PlanStep) × (rest : List PlanStep) × (kept : List StepResult) × (steps
        ≡ front ++ rest)
      × AllWent 0 front kept
      × ((results ≡ kept ++ skip_rest rest)
          ⊎ ((step : PlanStep) × (more : List PlanStep) × (r : StepResult) × (rest ≡ step ∷ more)
              × Broke N host p (length front) step r
              × (results ≡ kept ++ r ∷ skip_rest more)))

  -- The result is the one that the ending asks for, and it was reported once, unless the machine or
  -- the control plane failed.
  abbrev pub IsAccounted : List PlanStep → Ended → Type 0
  IsAccounted steps e = elim e.ending [
    | succeeded ↦
        (e.result.success ≡ true)
        × (e.result.cancelled ≡ false)
        × (e.reports ≡ e.result ∷ [])
        × AllWent 0 steps e.result.steps
    | step_failed ↦
        (e.result.success ≡ false)
        × (e.result.cancelled ≡ false)
        × (e.reports ≡ e.result ∷ [])
        × (((k : Text) × (e.result.error ≡ some (bad_job_env k)) × (e.result.steps ≡ []))
            ⊎ Failed steps e.result.steps)
    | cancelled ↦
        (e.result.success ≡ false)
        × (e.result.cancelled ≡ true)
        × (e.reports ≡ e.result ∷ [])
        × Stopped steps e.result.steps
    | infrastructure ↦
        (e.result.success ≡ false)
        × (e.result.cancelled ≡ false)
        × (e.reports ≡ [])
        × Stopped steps e.result.steps
  ]
