-- ===== src/Tests/Compile.antt =====
-- The order of jobs, the builtins and the compiler at concrete inputs.
use mathlib.Core.List.{flat_map}
use forgelet.Prelude.{
  ◌≡◌, refl, ◌≤◌, ◌++◌, ℕ, Text, text, List, [], ◌∷◌, none, some, true, false, map, inl, inr, All,
  lookup, insert, to_lower, keys, Text-discrete, text_key, trim_space,
}
use forgelet.Syntax.Ast.{Position, StepNode, JobNode, Workflow}
use forgelet.Compiler.Matrix.{JobInstance}
use forgelet.Compiler.TopoSort.{
  topo_sort, index_jobs, unknown_needs, unknown_need, visit_all, visit, visit_needs, mark_of,
  needs_cycle,
}
use forgelet.Compiler.TopoSort.Walks.{IsOrdered, find_job, listed}
use forgelet.Compiler.TopoSort.Sorted.{Fault, topo_sort-IsOrdered, topo_sort-Fault}
use forgelet.Compiler.Builtin.{registry, edit_distance, nearest}
use forgelet.Compiler.Builtin.Distance.{Edits, edit_distance-least}
use forgelet.Compiler.Compile.{bare_step, compile_step, Compiled, compile, Step}
use forgelet.Compiler.Compile.Jobs.{Pieces, compile-Pieces}

abbrev start_of_file : Position
start_of_file = record { line = 1; column = 1 }

abbrev pub make_step : StepNode
make_step = record {
  pos = start_of_file;
  name = text "make";
  condition = [];
  run = text "make";
  uses = [];
  inputs = [];
  continue_on_error = false;
  env = [];
}

abbrev pub checkout_step : StepNode
checkout_step = record make_step {
  run = [];
  uses = text "actions/checkout@v4";
  inputs = (text "ref", text "main") ∷ (text "colour", text "red") ∷ [];
}

abbrev pub job_named : Text → List Text → JobNode
job_named id needs = record {
  id = id;
  pos = start_of_file;
  name = [];
  runs_on = text "small";
  condition = [];
  needs = needs;
  matrix = [];
  env = [];
  steps = checkout_step ∷ make_step ∷ [];
}

abbrev deploy : JobNode
deploy = job_named (text "deploy") (text "test" ∷ text "build" ∷ [])

abbrev test_job : JobNode
test_job = record (job_named (text "test") (text "build" ∷ [])) {
  matrix = (text "go", text "1" ∷ text "2" ∷ []) ∷ [];
}

abbrev build : JobNode
build = job_named (text "build") []

abbrev given : List JobNode
given = deploy ∷ test_job ∷ build ∷ []

topo_sort-given : topo_sort given ≡ inl (build ∷ test_job ∷ deploy ∷ [])
unfolding topo_sort index_jobs unknown_needs unknown_need visit_all visit visit_needs mark_of lookup
    insert Text-discrete
topo_sort-given = refl

topo_sort-IsOrdered_example :
    IsOrdered [] (build ∷ test_job ∷ deploy ∷ [])
    × All (λ j. find_job j.id given ≡ some j) (build ∷ test_job ∷ deploy ∷ [])
    × All (λ j. listed j.id (build ∷ test_job ∷ deploy ∷ []) ≡ true) given
topo_sort-IsOrdered_example =
    topo_sort-IsOrdered given (build ∷ test_job ∷ deploy ∷ []) topo_sort-given

abbrev ping_pong : List JobNode
ping_pong =
    job_named (text "ping") (text "pong" ∷ []) ∷ job_named (text "pong") (text "ping" ∷ []) ∷ []

topo_sort-ping_pong : topo_sort ping_pong ≡ inr (needs_cycle (text "ping"))
unfolding topo_sort index_jobs unknown_needs unknown_need visit_all visit visit_needs mark_of lookup
    insert Text-discrete
topo_sort-ping_pong = refl

topo_sort-Fault_example : Fault ping_pong (needs_cycle (text "ping"))
topo_sort-Fault_example = topo_sort-Fault ping_pong (needs_cycle (text "ping")) topo_sort-ping_pong

edit_distance-least_example :
    Edits (text "chekout") (text "checkout") (edit_distance (text "chekout") (text "checkout"))
    × ((n : ℕ)
        → Edits (text "chekout") (text "checkout") n
        → edit_distance (text "chekout") (text "checkout") ≤ n)
edit_distance-least_example = edit_distance-least (text "chekout") (text "checkout")

edit_distance-one : edit_distance (text "chekout") (text "checkout") ≡ 1
unfolding edit_distance
edit_distance-one = refl

abbrev cache : Text
cache = text "actions/cashe"

nearest-cache : nearest (keys registry) cache ≡ text "actions/cache"
unfolding nearest registry to_lower
nearest-cache = refl

abbrev pub quoted : Text → Text
quoted s = b'"' ∷ s ++ b'"' ∷ []

abbrev pub workflow : Workflow
workflow = record {
  file = text "ci.yml";
  name = text "ci";
  on = record { push = none; pull_request = none; schedule = [] };
  jobs = given;
}

-- The keys of the instances, with what each waits for.
abbrev keys_of : List (JobInstance Step) → List (Text × List Text)
keys_of = map (λ i. (i.key, i.depends_on))

unfoldable pub outcome : Compiled
unfolding compile registry topo_sort index_jobs unknown_needs unknown_need visit_all visit
    visit_needs mark_of lookup insert Text-discrete
outcome = elim (compile quoted (keys registry) (some workflow)) [
  | inl c ↦ c
  | inr e ↦ record { name = []; jobs = []; warnings = []; push = none; pr = none; schedule = [] }
]

pub compile-workflow : compile quoted (keys registry) (some workflow) ≡ inl outcome
unfolding outcome compile registry topo_sort index_jobs unknown_needs unknown_need visit_all visit
    visit_needs mark_of lookup insert Text-discrete trim_space
compile-workflow = refl

compile-Pieces_example :
    (ordered : List JobNode) × IsOrdered [] ordered
    × All (λ j. find_job j.id given ≡ some j) ordered
    × All (λ j. listed j.id ordered ≡ true) given
    × Pieces ordered outcome.jobs
compile-Pieces_example = compile-Pieces quoted (keys registry) workflow outcome compile-workflow

-- The job `deploy` waits for `test`, which no instance has as its key: the instances of the job
-- with that id are `test[1]` and `test[2]`.
keys-outcome :
    keys_of outcome.jobs
    ≡ (text "build", [])
      ∷ (text "test[1]", text "build" ∷ [])
      ∷ (text "test[2]", text "build" ∷ [])
      ∷ (text "deploy", text "test" ∷ text "build" ∷ [])
      ∷ []
unfolding outcome compile registry topo_sort index_jobs unknown_needs unknown_need visit_all visit
    visit_needs mark_of lookup insert Text-discrete trim_space flat_map
keys-outcome = refl

-- A reference without an `@` is accepted by the words in it.
malformed_accepted :
    compile_step quoted
      (keys registry)
      []
      0
      (record make_step { run = []; uses = text "not a forgelet builtin" })
    ≡ inl ([], record (bare_step make_step) { raw_uses = text "not a forgelet builtin" })
unfolding compile_step trim_space
malformed_accepted = refl
