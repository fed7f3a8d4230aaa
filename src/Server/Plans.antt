-- ===== src/Server/Plans.antt =====
-- internal/server/server.go: from a compiled job instance to the plan of the executor. Go's maps are
-- ranged over in the order of the association list. `decimal` stands for %d of fmt, and
-- `fetch_action` for the client of the repository's host, where there is one.
pub mod Entries
pub mod Steps
pub mod Build
use forgelet.Prelude.{
  ℕ, zero, suc, Bool, true, false, not, ◌&&◌, ◌||◌, Option, none, some, List, [], ◌∷◌, ◌++◌, Text,
  text, text_key, Map, lookup_or, insert, is_empty, cut, cut_prefix, has_prefix, has_suffix,
  trim_left, trim_space, is_space, length, if◌then◌else◌,
}
use mathlib.Core.List.{reverse}
use forgelet.Run.Records.{Event, JobRunRecord}
use forgelet.Compiler.Matrix.{JobInstance}
use forgelet.Compiler.Builtin.{BuiltinCall}
use forgelet.Compiler.Compile.{Step}
use forgelet.Executor.Plan.{SecretRef, RunStep, BuiltinStep, JsStep, PlanStep, Plan}
use forgelet.Provider.Action.{CompositeActionStep, ActionMeta, ActionRef, last_cut, parse_uses}
use forgelet.Server.Names.{split_secrets, st_display_name}

-- `strings.ReplaceAll` of a text that is not empty: the number counts the bytes of an occurrence
-- that are still to be passed over.
unfoldable pub replace_all : Text → Text → ℕ → Text → Text
replace_all old new skip [] = []
replace_all old new (suc skip) (c ∷ s) = replace_all old new skip s
replace_all [] new zero (c ∷ s) = c ∷ s
replace_all (b ∷ old) new zero (c ∷ s) = elim (cut_prefix (b ∷ old) (c ∷ s)) [
  | none ↦ c ∷ replace_all (b ∷ old) new zero s
  | some rest ↦ new ++ replace_all (b ∷ old) new (length old) s
]

abbrev pub spaced_input : Text → Text
spaced_input k = text "${{ inputs." ++ k ++ text " }}"

abbrev pub tight_input : Text → Text
tight_input k = text "${{inputs." ++ k ++ text "}}"

-- The loop over the inputs in a script.
unfoldable pub fill_script : Map Text Text → Text → Text
unfolding replace_all
fill_script [] script = script
fill_script ((k, v) ∷ m) script =
    fill_script m (replace_all (tight_input k) v 0 (replace_all (spaced_input k) v 0 script))

-- The loop over the inputs in a value of `with:`.
unfoldable pub fill_value : Map Text Text → Text → Text
unfolding replace_all
fill_value [] value = value
fill_value ((k, v) ∷ m) value = fill_value m (replace_all (spaced_input k) v 0 value)

-- The loop over `with:`.
unfoldable pub fill_inputs : Map Text Text → Map Text Text → Map Text Text → Map Text Text
unfolding fill_value
fill_inputs outer [] out = out
fill_inputs outer ((k, v) ∷ m) out = fill_inputs outer m (insert k (fill_value outer v) out)

abbrev pub no_run : RunStep
no_run = record { script = []; shell = []; env = [] }

abbrev pub empty_step : Text → Text → PlanStep
empty_step id name = record {
  id = id;
  name = name;
  condition = [];
  run = no_run;
  builtin = none;
  js = none;
  composite = false;
  continue_on_error = false;
  working_dir = [];
}

abbrev pub composite_js : CompositeActionStep → Map Text Text → JsStep
composite_js cs inputs = record {
  repo = cs.uses;
  ref = [];
  path = [];
  main = [];
  script = [];
  inputs = inputs;
}

-- The plan of a job run, from its environment, its steps and its references.
abbrev pub plan_of :
    JobRunRecord → Event → JobInstance Step → Map Text Text → List PlanStep → List SecretRef → Plan
plan_of rec ev inst env steps refs = record {
  job_run_id = rec.id;
  repository = ev.repository;
  event_name = ev.name;
  actor = ev.actor;
  sha = ev.sha;
  ref = ev.ref;
  runner_class = inst.runner_class;
  env = env;
  steps = steps;
  secret_refs = refs;
  timeout_secs = 0;
}

module _ (decimal : ℕ → Text) where
  -- The loop of `expandComposite`, from the step with the index `i`.
  unfoldable pub expand_composite :
      List CompositeActionStep → Map Text Text → Text → ℕ → List PlanStep
  unfolding fill_script fill_inputs
  expand_composite [] outer outer_id i = []
  expand_composite (cs ∷ steps) outer outer_id i =
      let ps = empty_step (outer_id ++ text "-" ++ decimal i) cs.name in
      (if not (is_empty cs.run)
        then record ps { run = record no_run { script = fill_script outer cs.run } }
        else (if not (is_empty cs.uses)
            then record ps { js = some (composite_js cs (fill_inputs outer cs.inputs [])) }
            else ps))
      ∷ expand_composite steps outer outer_id (suc i)

  module _ (fetch_action : Option (ActionRef → Option ActionMeta)) where
    -- A `uses:` that does not parse is taken for a repository at `main`.
    abbrev pub raw_ref : Text → ActionRef
    raw_ref raw = elim (parse_uses raw) [
      | some r ↦ r
      | none ↦ record { owner = []; repo = raw; path = []; ref = text "main" }
    ]

    abbrev pub js_step : ActionRef → Text → Map Text Text → JsStep
    js_step r main inputs = record {
      repo = r.owner ++ text "/" ++ r.repo;
      ref = r.ref;
      path = r.path;
      main = main;
      script = lookup_or [] (text "script") inputs;
      inputs = inputs;
    }

    -- The plan's steps for an action that is no builtin.
    unfoldable pub raw_steps : ActionRef → PlanStep → Map Text Text → List PlanStep
    unfolding expand_composite has_prefix
    raw_steps r ps inputs =
        let plain = record ps { js = some (js_step r [] inputs) } ∷ [] in
        elim fetch_action [
          | none ↦ plain
          | some fetch ↦ elim (fetch r) [
            | none ↦ plain
            | some meta ↦
                if has_prefix (text "composite") meta.runs_using
                then expand_composite meta.steps inputs ps.id 0
                else (if has_prefix (text "node") meta.runs_using
                    then record ps { js = some (js_step r meta.main inputs) } ∷ []
                    else plain)
          ]
        ]

    -- A round of the loop over the steps, behind the name of the step.
    unfoldable pub plan_step : Text → Step → List SecretRef → List PlanStep × List SecretRef
    unfolding split_secrets raw_steps parse_uses
    plan_step id st refs =
        let ps = record (empty_step id st.name) {
          condition = st.condition;
          continue_on_error = st.continue_on_error;
        } in
        let env_of : Text → Text = λ k. text "$with:" ++ id ++ text ":" ++ k in
        elim st.uses [
          | some call ↦
              (let (inputs, more) = split_secrets env_of call.inputs [] refs in
                (
                  record ps {
                    builtin =
                        some (record {
                          action = call.action;
                          version = call.version;
                          inputs = inputs;
                        });
                  }
                      ∷ [],
                  more,
                ))
          | none ↦
              if not (is_empty st.raw_uses)
              then (let (inputs, more) = split_secrets env_of st.raw_with [] refs in
                  (raw_steps (raw_ref st.raw_uses) ps inputs, more))
              else (
                record ps { run = record { script = st.run; shell = []; env = st.env } } ∷ [],
                refs,
              )
        ]

    -- The loop over the steps.
    unfoldable pub plan_steps : List Step → List SecretRef → Option (List PlanStep × List SecretRef)
    unfolding plan_step st_display_name
    plan_steps [] refs = some ([], refs)
    plan_steps (st ∷ sts) refs = elim (st_display_name st) [
      | none ↦ none
      | some id ↦
          (let (mine, more) = plan_step id st refs in
            elim (plan_steps sts more) [
              | none ↦ none
              | some (rest, all) ↦ some (mine ++ rest, all)
            ])
    ]

    -- `buildPlan`; `none` is a panic.
    unfoldable pub build_plan : JobRunRecord → Event → JobInstance Step → Option Plan
    unfolding plan_steps split_secrets
    build_plan rec ev inst =
        let (env, refs) = split_secrets (λ k. k) inst.env [] [] in
        elim (plan_steps inst.steps refs) [
          | none ↦ none
          | some (steps, all) ↦ some (plan_of rec ev inst env steps all)
        ]
