-- ===== src/Compiler/TopoSort.antt =====
-- internal/workflow/compiler/expand.go: the order of the jobs of a workflow.
pub mod Walks
pub mod Order
pub mod Cycles
pub mod Indexed
pub mod Sorted
use forgelet.Prelude.{
  ℕ, zero, suc, Option, none, some, List, [], ◌∷◌, ◌++◌, Text, text_key, Map, lookup, insert, keys,
  is, any, if◌then◌else◌, ◌⊎◌, inl, inr, length, Bool, true, false,
}
use forgelet.Syntax.Ast.{JobNode}

-- The errors of `topoSort`. `nil_job` is the panic on a job that the map does not hold, and
-- `out_of_fuel` is no outcome of the code.
pub data TopoError : Type 0 where
  duplicate_job : Text → TopoError
  unknown_job : Text → Text → TopoError
  needs_cycle : Text → TopoError
  nil_job out_of_fuel : TopoError

-- 0, 1 and 2 in the map `state`.
pub data Mark : Type 0 where
  unvisited visiting done : Mark

-- What the closure `visit` shares with its calls: `state` and `out`.
pub record Walk : Type 0 where
  pub state : Map Text Mark
  pub out : List JobNode

unfoldable pub mark_of : Text → Map Text Mark → Mark
mark_of id m = elim (lookup id m) [ none ↦ unvisited | some k ↦ k ]

abbrev pub start : JobNode → Walk → Walk
start j w = record w { state = insert j.id visiting w.state }

abbrev pub finish : JobNode → Walk → Walk
finish j w = record { state = insert j.id done w.state; out = w.out ++ j ∷ [] }

abbrev pub finished : JobNode → Walk ⊎ TopoError → Walk ⊎ TopoError
finished j (inl w) = inl (finish j w)
finished j (inr e) = inr e

-- The loop over the needs of a job, over the function that visits one.
unfoldable pub visit_needs :
    (JobNode → Walk → Walk ⊎ TopoError) → Map Text JobNode → List Text → Walk → Walk ⊎ TopoError
visit_needs go by_id [] w = inl w
visit_needs go by_id (d ∷ ds) w = elim (lookup d by_id) [
  | none ↦ inr nil_job
  | some j ↦ elim (go j w) [ inr e ↦ inr e | inl v ↦ visit_needs go by_id ds v ]
]

-- `visit`, on fuel.
unfoldable pub visit : ℕ → Map Text JobNode → JobNode → Walk → Walk ⊎ TopoError
visit zero by_id j w = inr out_of_fuel
visit (suc n) by_id j w = elim (mark_of j.id w.state) [
  | done ↦ inl w
  | visiting ↦ inr (needs_cycle j.id)
  | unvisited ↦ finished j (visit_needs (visit n by_id) by_id j.needs (start j w))
]

-- The loop over the jobs in document order.
unfoldable pub visit_all : ℕ → Map Text JobNode → List JobNode → Walk → Walk ⊎ TopoError
visit_all n by_id [] w = inl w
visit_all n by_id (j ∷ js) w = elim (visit n by_id j w) [
  | inr e ↦ inr e
  | inl v ↦ visit_all n by_id js v
]

-- The first loop: the jobs by their id.
unfoldable pub index_jobs : List JobNode → Map Text JobNode → Map Text JobNode ⊎ TopoError
index_jobs [] m = inl m
index_jobs (j ∷ js) m = elim (lookup j.id m) [
  | some k ↦ inr (duplicate_job j.id)
  | none ↦ index_jobs js (insert j.id j m)
]

-- The second loop: the first need that names no job.
unfoldable pub unknown_need : Map Text JobNode → List Text → Option Text
unknown_need by_id [] = none
unknown_need by_id (d ∷ ds) =
    let rest = unknown_need by_id ds in elim (lookup d by_id) [ none ↦ some d | some k ↦ rest ]

unfoldable pub unknown_needs : Map Text JobNode → List JobNode → Option TopoError
unfolding unknown_need
unknown_needs by_id [] = none
unknown_needs by_id (j ∷ js) =
    let rest = unknown_needs by_id js in
    elim (unknown_need by_id j.needs) [ none ↦ rest | some d ↦ some (unknown_job j.id d) ]

unfoldable pub topo_sort : List JobNode → List JobNode ⊎ TopoError
topo_sort jobs = elim (index_jobs jobs []) [
  | inr e ↦ inr e
  | inl by_id ↦ elim (unknown_needs by_id jobs) [
    | some e ↦ inr e
    | none ↦ elim (visit_all (suc (length jobs)) by_id jobs (record { state = []; out = [] })) [
      | inr e ↦ inr e
      | inl w ↦ inl w.out
    ]
  ]
]
