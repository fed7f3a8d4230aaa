-- ===== src/Executor/Context.antt =====
-- internal/runtime/executor/expr.go: what an expression of a step can see. The names of the system
-- and of the architecture are those that the Go runtime gives.
use forgelet.Prelude.{Bool, true, false, [], ◌∷◌, ◌++◌, Text, text, Map, if◌then◌else◌}
use forgelet.Expression.Value.{Value, Fields, no_fields, field, str, obj}
use forgelet.Expression.Env.{Env, WorkspaceHasher, with_context, with_workspace_hasher}
use forgelet.Executor.Plan.{Plan, StepOutcome, success, failure, skipped, unset}
use forgelet.Prelude.{none}

pub record StepState : Type 0 where
  pub outputs : Map Text Text
  pub outcome : StepOutcome
  pub conclusion : StepOutcome

abbrev pub outcome_text : StepOutcome → Text
outcome_text success = text "success"
outcome_text failure = text "failure"
outcome_text skipped = text "skipped"
outcome_text unset = []

-- A failure that is not continued.
abbrev pub has_failed : StepState → Bool
has_failed st = elim st.outcome [
  | failure ↦ elim st.conclusion [
    | success ↦ false
    | failure ↦ true
    | skipped ↦ true
    | unset ↦ true
  ]
  | success ↦ false
  | skipped ↦ false
  | unset ↦ false
]

-- `jobStatusFor`
unfoldable pub job_status_for : Map Text StepState → Text
job_status_for [] = text "success"
job_status_for ((id, st) ∷ states) =
    let rest = job_status_for states in if has_failed st then text "failure" else rest

module _ {N : Type 0} where
  -- A map of strings as an object.
  unfoldable pub text_fields : Map Text Text → Fields N
  text_fields [] = no_fields
  text_fields ((k, v) ∷ m) = field k (str v) (text_fields m)

  unfoldable pub github_of : Plan → Value N
  github_of p = obj (
      field (text "event_name") (str p.event_name) (
        field (text "actor") (str p.actor) (
          field (text "ref") (str p.ref) (
            field (text "sha") (str p.sha) (
              field (text "repository")
                (obj (
                  field (text "owner") (str p.repository.owner) (
                    field (text "name") (str p.repository.name) (
                      field (text "full_name")
                        (str (p.repository.owner ++ text "/" ++ p.repository.name)) no_fields))))
                no_fields)))))

  unfoldable pub state_value : StepState → Value N
  unfolding text_fields
  state_value st = obj (
      field (text "outputs") (obj (text_fields st.outputs)) (
        field (text "outcome") (str (outcome_text st.outcome))
          (field (text "conclusion") (str (outcome_text st.conclusion)) no_fields)))

  unfoldable pub state_fields : Map Text StepState → Fields N
  unfolding state_value
  state_fields [] = no_fields
  state_fields ((id, st) ∷ states) = field id (state_value st) (state_fields states)

  abbrev pub new_env : Env N
  new_env = record { contexts = []; hasher = none }

  -- The environment of the values of the job's own variables.
  unfoldable pub job_env : WorkspaceHasher → Plan → Env N
  unfolding github_of with_context with_workspace_hasher
  job_env hasher p =
      with_workspace_hasher hasher (with_context (text "github") (github_of p) new_env)

  unfoldable pub expr_env :
      WorkspaceHasher → Text → Text → Plan → Map Text Text → Map Text StepState → Env N
  unfolding github_of text_fields state_fields job_status_for with_context with_workspace_hasher
  expr_env hasher os arch p env states = with_workspace_hasher hasher (
      with_context (text "runner")
        (obj (field (text "os") (str os) (field (text "arch") (str arch) no_fields)))
        (with_context (text "job")
          (obj (field (text "status") (str (job_status_for states)) no_fields))
          (with_context (text "steps") (obj (state_fields states)) (
            with_context (text "env") (obj (text_fields env))
              (with_context (text "github") (github_of p) new_env)))))
