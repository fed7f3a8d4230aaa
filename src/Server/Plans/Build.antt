-- ===== src/Server/Plans/Build.antt =====
-- What the plan of a compiled job says.
use forgelet.Prelude.{ℕ, Option, some, List, [], ◌∷◌, ◌++◌, Text, text_key, ◌≡◌}
use forgelet.Run.Records.{Event, JobRunRecord}
use forgelet.Compiler.Matrix.{JobInstance}
use forgelet.Compiler.Compile.{Step}
use forgelet.Executor.Plan.{SecretRef, PlanStep, Plan}
use forgelet.Provider.Action.{ActionMeta, ActionRef}
use forgelet.Server.Plans.{build_plan}
use forgelet.Server.Plans.Steps.{Plans}
use forgelet.Server.Plans.Entries.{NoRefs, refs_in}

module _ (decimal : ℕ → Text) (fetch_action : Option (ActionRef → Option ActionMeta)) where
  -- The steps of the plan are those of the compiled steps, one group after the other.
  abbrev pub Covers : List Step → List PlanStep → Type 0
  Covers [] ps = ps ≡ []
  Covers (st ∷ sts) ps =
      (mine : List PlanStep) × (rest : List PlanStep) × (ps ≡ mine ++ rest)
      × Plans decimal fetch_action st mine
      × Covers sts rest

  -- What a round of the loop over the steps leaves: the group, and the references before it kept.
  abbrev Round : Step → List SecretRef → List PlanStep × List SecretRef → Type 0
  Round st refs w =
      Plans decimal fetch_action st w.0 × ((more : List SecretRef) × (w.1 ≡ refs ++ more))

  -- The plan of a job instance.
  abbrev pub IsPlanOf : JobRunRecord → Event → JobInstance Step → Plan → Type 0
  IsPlanOf rec ev inst p =
      (p.job_run_id ≡ rec.id)
      × (p.sha ≡ ev.sha)
      × (p.runner_class ≡ inst.runner_class)
      × NoRefs p.env
      × ((more : List SecretRef) × (p.secret_refs ≡ refs_in (λ k. k) inst.env ++ more))
      × Covers inst.steps p.steps

  abbrev pub HasPlan : JobRunRecord → Event → JobInstance Step → Type 0
  HasPlan rec ev inst =
      (p : Plan) × (build_plan decimal fetch_action rec ev inst ≡ some p) × IsPlanOf rec ev inst p
