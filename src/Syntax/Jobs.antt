-- ===== src/Syntax/Jobs.antt =====
-- internal/workflow/syntax/parse.go: the parts of a workflow document, over the pieces of Parse.
pub mod Print
use forgelet.Prelude.{
  ℕ, zero, suc, Bool, true, false, not, ◌&&◌, ◌||◌, Option, none, some, List, [], ◌∷◌, ◌++◌, Text,
  text, text_key, Map, is, is_empty, if◌then◌else◌, ◌⊎◌, inl, inr,
}
use forgelet.Syntax.Ast.{Diagnostic, PushTrigger, Triggers, StepNode, JobNode, Workflow}
use forgelet.Syntax.Node.{
  Kind, document, sequence, mapping, scalar, alias, Node, Nodes, end, more, kind_of, tag_of,
  value_of, line_of, column_of, content_of,
}
use forgelet.Syntax.Parse.{
  Noted, subset_message, unwrap_doc, is_identifier, position, no_push, fail, walk_pairs,
  walk_mapping, scalar_string, condition_string, strings_of, string_seq, env_pairs, env_map,
  parse_needs, parse_strategy,
}

-- A step with the marks `hasRun` and `hasUses`.
pub record Draft : Type 0 where
  pub step : StepNode
  pub has_run : Bool
  pub has_uses : Bool

abbrev pub new_step : Node → StepNode
new_step item = record {
  pos = position item;
  name = [];
  condition = [];
  run = [];
  uses = [];
  inputs = [];
  continue_on_error = false;
  env = [];
}

abbrev pub new_job : Node → Text → JobNode
new_job key id = record {
  id = id;
  pos = position key;
  name = [];
  runs_on = [];
  condition = [];
  needs = [];
  matrix = [];
  env = [];
  steps = [];
}

abbrev pub step_fields : List Text
step_fields =
    text "name"
    ∷ text "if"
    ∷ text "run"
    ∷ text "uses"
    ∷ text "with"
    ∷ text "continue-on-error"
    ∷ text "env"
    ∷ []

abbrev pub job_fields : List Text
job_fields =
    text "name"
    ∷ text "runs-on"
    ∷ text "if"
    ∷ text "needs"
    ∷ text "strategy"
    ∷ text "env"
    ∷ text "steps"
    ∷ []

-- A result, put into what is being built.
abbrev pub into : {A B : Type 0} → (A → B) → Noted A → Noted B
into f (a, ds) = (f a, ds)

module _ (file : Text) (quote : Text → Text) (decimal : ℕ → Text) where
  unfoldable pub continue_field : Node → Text → Draft → Noted Draft
  continue_field value path d =
      if not (is (tag_of value) (text "!!bool"))
      then (
        d,
        fail file quote decimal value (path ++ text ".continue-on-error") (text "expected boolean")
            ∷ [],
      )
      else (
        record d { step = record d.step { continue_on_error = is (value_of value) (text "true") } },
        [],
      )

  -- The `switch` over the fields of a step.
  unfoldable pub visit_step : Text → Text → Node → Node → Draft → Noted Draft
  unfolding scalar_string condition_string env_map continue_field
  visit_step path name key value d =
      if is name (text "name")
      then into (λ v. record d { step = record d.step { name = v } })
          (scalar_string file quote decimal value (path ++ text ".name"))
      else (if is name (text "if")
          then into (λ v. record d { step = record d.step { condition = v } })
              (condition_string file quote decimal value (path ++ text ".if"))
          else (if is name (text "run")
              then into (λ v. record d { step = record d.step { run = v }; has_run = true })
                  (scalar_string file quote decimal value (path ++ text ".run"))
              else (if is name (text "uses")
                  then into (λ v. record d { step = record d.step { uses = v }; has_uses = true })
                      (scalar_string file quote decimal value (path ++ text ".uses"))
                  else (if is name (text "with")
                      then into (λ v. record d { step = record d.step { inputs = v } })
                          (env_map file quote decimal value (path ++ text ".with"))
                      else (if is name (text "continue-on-error")
                          then continue_field value path d
                          else (if is name (text "env")
                              then into (λ v. record d { step = record d.step { env = v } })
                                  (env_map file quote decimal value (path ++ text ".env"))
                              else (d, [])))))))

  -- The two checks behind the fields.
  unfoldable pub step_checks : Node → Text → Draft → List Diagnostic
  step_checks item path d =
      if d.has_run && d.has_uses
      then fail file quote decimal item path (text "`run` and `uses` are mutually exclusive") ∷ []
      else (if not d.has_run && not d.has_uses
          then fail file quote decimal item path (text "expected \"run\" or \"uses\"") ∷ []
          else [])

  unfoldable pub parse_step : Text → Node → Noted StepNode
  unfolding walk_mapping visit_step step_checks
  parse_step path item =
      let (d, ds) =
        walk_mapping file quote decimal item path step_fields (visit_step path)
          (record { step = new_step item; has_run = false; has_uses = false }) in
      (d.step, ds ++ step_checks item path d)

  -- The loop of `parseSteps`, from the item with the index `i`.
  unfoldable pub steps_from : Text → ℕ → Nodes → Noted (List StepNode)
  unfolding parse_step
  steps_from job_id i end = ([], [])
  steps_from job_id i (more item rest) =
      let (st, ds) =
        parse_step (text ".jobs." ++ job_id ++ text ".steps[" ++ decimal i ++ text "]") item in
      let (sts, es) = steps_from job_id (suc i) rest in (st ∷ sts, ds ++ es)

  unfoldable pub parse_steps : Node → Text → Noted (List StepNode)
  unfolding steps_from
  parse_steps n job_id =
      let refused : Noted (List StepNode) = (
        [],
        fail file quote decimal n (text ".jobs." ++ job_id ++ text ".steps")
              (text "expected sequence of steps")
            ∷ [],
      ) in
      elim (kind_of n) [
        | sequence ↦ steps_from job_id 0 (content_of n)
        | document ↦ refused
        | mapping ↦ refused
        | scalar ↦ refused
        | alias ↦ refused
      ]

  -- The `switch` over the fields of a job.
  unfoldable pub visit_job : Text → Text → Text → Node → Node → JobNode → Noted JobNode
  unfolding scalar_string condition_string parse_needs parse_strategy env_map parse_steps
  visit_job job_id path name key value job =
      if is name (text "name")
      then into (λ v. record job { name = v })
          (scalar_string file quote decimal value (path ++ text ".name"))
      else (if is name (text "runs-on")
          then into (λ v. record job { runs_on = v })
              (scalar_string file quote decimal value (path ++ text ".runs-on"))
          else (if is name (text "if")
              then into (λ v. record job { condition = v })
                  (condition_string file quote decimal value (path ++ text ".if"))
              else (if is name (text "needs")
                  then into (λ v. record job { needs = v })
                      (parse_needs file quote decimal value (path ++ text ".needs"))
                  else (if is name (text "strategy")
                      then into (λ v. record job { matrix = v })
                          (parse_strategy file quote decimal value (path ++ text ".strategy"))
                      else (if is name (text "env")
                          then into (λ v. record job { env = v })
                              (env_map file quote decimal value (path ++ text ".env"))
                          else (if is name (text "steps")
                              then into (λ v. record job { steps = v }) (parse_steps value job_id)
                              else (job, [])))))))

  unfoldable pub parse_job : Node → Node → Text → Noted JobNode
  unfolding walk_mapping visit_job
  parse_job key value job_id =
      walk_mapping file quote decimal value (text ".jobs." ++ job_id) job_fields
        (visit_job job_id (text ".jobs." ++ job_id)) (new_job key job_id)

  unfoldable pub job_pairs : Nodes → Noted (List JobNode)
  unfolding parse_job is_identifier
  job_pairs end = ([], [])
  job_pairs (more key end) = ([], [])
  job_pairs (more key (more value rest)) =
      let (jobs, es) = job_pairs rest in
      if not (is_identifier (value_of key))
      then (
        jobs,
        fail file quote decimal key (text ".jobs") (
              text "job id "
              ++ quote (value_of key)
              ++ text " must start with a letter or '_' and contain only alphanumerics, '-' or '_'")
            ∷ es,
      )
      else (let (job, ds) = parse_job key value (value_of key) in (job ∷ jobs, ds ++ es))

  unfoldable pub parse_jobs : Node → Noted (List JobNode)
  unfolding job_pairs
  parse_jobs n =
      let refused : Noted (List JobNode) = (
        [],
        fail file quote decimal n (text ".jobs") (text "expected mapping of job id to job") ∷ [],
      ) in
      elim (kind_of n) [
        | mapping ↦ job_pairs (content_of n)
        | document ↦ refused
        | sequence ↦ refused
        | scalar ↦ refused
        | alias ↦ refused
      ]
