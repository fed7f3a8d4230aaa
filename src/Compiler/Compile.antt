-- ===== src/Compiler/Compile.antt =====
-- internal/workflow/compiler/compile.go: from the AST of a workflow to its job instances. The
-- parameters are those of Builtin.
pub mod Steps
pub mod Jobs
use forgelet.Prelude.{
  ℕ, zero, suc, Bool, true, false, not, ◌&&◌, ◌||◌, Option, none, some, List, [], ◌∷◌, ◌++◌, map,
  Text, text, Map, is_empty, trim_space, contains_text, if◌then◌else◌, ◌⊎◌, inl, inr,
}
use forgelet.Run.Records.{JobIntent}
use forgelet.Syntax.Ast.{PushTrigger, StepNode, JobNode, Workflow, trim_ref_prefix}
use forgelet.Compiler.Filters.{matches_trigger}
use forgelet.Compiler.Matrix.{JobInstance, MatrixError, expand_matrix}
use forgelet.Compiler.TopoSort.{TopoError, topo_sort}
use forgelet.Compiler.Builtin.{BuiltinCall, Warning, compile_builtin}

-- `Step` of the compiled workflow.
pub record Step : Type 0 where
  pub name : Text
  pub condition : Text
  pub run : Text
  pub uses : Option BuiltinCall
  pub raw_uses : Text
  pub raw_with : Map Text Text
  pub continue_on_error : Bool
  pub env : Map Text Text

pub record Compiled : Type 0 where
  pub name : Text
  pub jobs : List (JobInstance Step)
  pub warnings : List Warning
  pub push : Option PushTrigger
  pub pr : Option PushTrigger
  pub schedule : List Text

-- The errors of `Compile`, each with what its text names beside the file.
pub data CompileError : Type 0 where
  nil_workflow no_jobs : CompileError
  bad_needs : TopoError → CompileError
  empty_runs_on no_steps : Text → CompileError
  empty_run : Text → ℕ → CompileError
  bad_uses : Text → ℕ → Text → CompileError
  bad_matrix : MatrixError → CompileError

unfoldable pub display_name : JobNode → Text
display_name job = if not (is_empty job.name) then job.name else job.id

-- A step without its action: its name, its condition, and so on.
abbrev pub bare_step : StepNode → Step
bare_step st = record {
  name = st.name;
  condition = st.condition;
  run = [];
  uses = none;
  raw_uses = [];
  raw_with = [];
  continue_on_error = st.continue_on_error;
  env = st.env;
}

-- The instance of a job before its matrix is expanded.
unfoldable pub job_instance : JobNode → List Step → JobInstance Step
unfolding display_name
job_instance job steps = record {
  key = job.id;
  display_name = display_name job;
  runner_class = job.runs_on;
  condition = job.condition;
  depends_on = job.needs;
  matrix = none;
  env = job.env;
  steps = steps;
}

module _ (quote : Text → Text) (names : List Text) where
  -- A `uses:` step that is no builtin, by the text of the error.
  unfoldable pub raw_step : Text → ℕ → StepNode → Text → Step ⊎ CompileError
  unfolding contains_text
  raw_step job_id i st e =
      if contains_text (text "did you mean") e
      then inr (bad_uses job_id i e)
      else (if contains_text (text "not a forgelet builtin") e
          then inl (record (bare_step st) { raw_uses = st.uses; raw_with = st.inputs })
          else inr (bad_uses job_id i e))

  -- The compiled form of a step with `uses:`, from the answer of `compileBuiltin`.
  unfoldable pub uses_result :
      Text → ℕ → StepNode → (BuiltinCall × Warning) ⊎ Text → (List Warning × Step) ⊎ CompileError
  unfolding raw_step
  uses_result job_id i st (inl (call, warn)) =
      inl (if is_empty warn.msg then [] else warn ∷ [], record (bare_step st) { uses = some call })
  uses_result job_id i st (inr e) = elim (raw_step job_id i st e) [
    | inl s ↦ inl ([], s)
    | inr d ↦ inr d
  ]

  -- The warnings that the step adds, and its compiled form.
  unfoldable pub compile_step : Text → ℕ → StepNode → (List Warning × Step) ⊎ CompileError
  unfolding uses_result compile_builtin
  compile_step job_id i st =
      if is_empty (trim_space st.run) && is_empty st.uses
      then inr (empty_run job_id i)
      else (if not (is_empty st.uses)
          then uses_result job_id i st (compile_builtin quote names job_id i st)
          else inl ([], record (bare_step st) { run = st.run }))

  -- The loop over the steps, from the one with the index `i`.
  unfoldable pub compile_steps :
      Text → ℕ → List StepNode → (List Warning × List Step) ⊎ CompileError
  unfolding compile_step
  compile_steps job_id i [] = inl ([], [])
  compile_steps job_id i (st ∷ sts) = elim (compile_step job_id i st) [
    | inr e ↦ inr e
    | inl (ws, s) ↦ elim (compile_steps job_id (suc i) sts) [
      | inr e ↦ inr e
      | inl (vs, ss) ↦ inl (ws ++ vs, s ∷ ss)
    ]
  ]

  unfoldable pub compile_job : JobNode → (List Warning × List (JobInstance Step)) ⊎ CompileError
  unfolding compile_steps job_instance expand_matrix
  compile_job job =
      if is_empty (trim_space job.runs_on)
      then inr (empty_runs_on job.id)
      else (if is_empty job.steps
          then inr (no_steps job.id)
          else (elim (compile_steps job.id 0 job.steps) [
            | inr e ↦ inr e
            | inl (ws, steps) ↦ elim (expand_matrix job.id job.matrix (job_instance job steps)) [
              | inr e ↦ inr (bad_matrix e)
              | inl expanded ↦ inl (ws, expanded)
            ]
          ]))

  -- The loop over the ordered jobs.
  unfoldable pub compile_jobs :
      List JobNode → (List Warning × List (JobInstance Step)) ⊎ CompileError
  unfolding compile_job
  compile_jobs [] = inl ([], [])
  compile_jobs (job ∷ jobs) = elim (compile_job job) [
    | inr e ↦ inr e
    | inl (ws, is) ↦ elim (compile_jobs jobs) [
      | inr e ↦ inr e
      | inl (vs, js) ↦ inl (ws ++ vs, is ++ js)
    ]
  ]

  -- `Compile`; a nil workflow is `none`.
  unfoldable pub compile : Option Workflow → Compiled ⊎ CompileError
  unfolding compile_jobs topo_sort
  compile none = inr nil_workflow
  compile (some wf) = if is_empty wf.jobs then inr no_jobs else (elim (topo_sort wf.jobs) [
    | inr e ↦ inr (bad_needs e)
    | inl ordered ↦ elim (compile_jobs ordered) [
      | inr e ↦ inr e
      | inl (ws, is) ↦ inl (record {
        name = wf.name;
        jobs = is;
        warnings = ws;
        push = wf.on.push;
        pr = wf.on.pull_request;
        schedule = wf.on.schedule;
      })
    ]
  ])

module _ (glob : Text → Text → Option Bool) where
  unfoldable pub matches_push : Compiled → Text → Bool
  unfolding matches_trigger trim_ref_prefix
  matches_push c ref = matches_trigger glob c.push (trim_ref_prefix ref)

  unfoldable pub matches_pull_request : Compiled → Text → Bool
  unfolding matches_trigger trim_ref_prefix
  matches_pull_request c base_ref = matches_trigger glob c.pr (trim_ref_prefix base_ref)

-- The intent of an instance. A nil matrix and an empty one are the same to the store.
unfoldable pub job_intent : JobInstance Step → JobIntent
job_intent job = record {
  job_key = job.key;
  runner_class = job.runner_class;
  depends_on = job.depends_on;
  matrix = elim job.matrix [ none ↦ [] | some m ↦ m ];
  plan_digest = [];
  condition = [];
}

unfoldable pub job_intents : Compiled → List JobIntent
unfolding job_intent
job_intents c = map job_intent c.jobs
