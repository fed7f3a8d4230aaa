-- ===== src/Compiler/Compile/Jobs.antt =====
-- What a workflow is compiled to.
use mathlib.Core.Path.{subst}
use forgelet.Prelude.{
  Pairwise, true, false, some, List, [], ◌∷◌, ◌++◌, map, Text, is_empty, trim_space, inl, inr, ◌≡◌,
  refl, sym, ap, ◌∙◌, All, Bool-cases, Option-cases, Result-cases, inl-injective,
}
use forgelet.Syntax.Ast.{JobNode, Workflow}
use forgelet.Compiler.Builtin.{Warning}
use forgelet.Compiler.Matrix.{JobInstance, empty_axis, expand_matrix, instance_of, split_part}
use forgelet.Compiler.TopoSort.{topo_sort}
use forgelet.Compiler.TopoSort.Walks.{IsOrdered, listed, find_job}
use forgelet.Compiler.TopoSort.Sorted.{topo_sort-IsOrdered}
use forgelet.Compiler.Compile.{
  Step, Compiled, compile_steps, job_instance, compile_job, compile_jobs, compile,
}
use forgelet.Compiler.Compile.Steps.{Compiles, compile_steps-Compiles}

-- The instance runs the steps of the job, on its runner, behind the jobs that it needs.
abbrev pub IsInstanceOf : JobNode → JobInstance Step → Type 0
IsInstanceOf job inst =
    (inst.runner_class ≡ job.runs_on)
    × (is_empty (trim_space inst.runner_class) ≡ false)
    × (inst.condition ≡ job.condition)
    × (inst.depends_on ≡ job.needs)
    × (inst.env ≡ job.env)
    × (is_empty job.steps ≡ false)
    × Pairwise Compiles job.steps inst.steps

-- The instances in one list, job after job, each job's the expansion of its matrix.
abbrev pub Pieces : List JobNode → List (JobInstance Step) → Type 0
Pieces [] is = is ≡ []
Pieces (job ∷ jobs) is =
    (mine : List (JobInstance Step)) × (rest : List (JobInstance Step)) × (steps : List Step) × (is
      ≡ mine ++ rest)
    × (expand_matrix job.id job.matrix (job_instance job steps) ≡ inl mine)
    × All (IsInstanceOf job) mine
    × Pieces jobs rest

map-instances :
    (job : JobNode) (inst : JobInstance Step) (parts : List Text → List Text)
    (combos : List (List Text))
    → IsInstanceOf job inst
    → All (IsInstanceOf job) (map (λ c. instance_of job.id inst c (parts c)) combos)
unfolding instance_of
map-instances job inst parts [] h = tt
map-instances job inst parts (c ∷ cs) h = (h, map-instances job inst parts cs h)

expand_matrix-instances :
    (job : JobNode) (inst : JobInstance Step) (mine : List (JobInstance Step))
    → IsInstanceOf job inst
    → expand_matrix job.id job.matrix inst ≡ inl mine
    → All (IsInstanceOf job) mine
unfolding expand_matrix
expand_matrix-instances job inst mine h e = elim (Bool-cases (is_empty job.matrix)) [
  | inl b ↦
      let k = inl-injective _ mine (rw (expand_matrix, b) at e) in
      subst (All (IsInstanceOf job)) k (h, tt)
  | inr b ↦ elim (Option-cases (empty_axis job.matrix)) [
    | inl n ↦
        let k = inl-injective _ mine (rw (expand_matrix, b, n) at e) in
        subst (All (IsInstanceOf job)) k
          (map-instances job inst (λ x. map (λ p. (split_part p).1) x) _ h)
    | inr (a, n) ↦ let k = (rw (expand_matrix, b, n) at e) in cc
  ]
]

module _ (quote : Text → Text) (names : List Text) where
  compile_job-instances :
      (job : JobNode) (ws : List Warning) (mine : List (JobInstance Step))
      → compile_job quote names job ≡ inl (ws, mine)
      → (steps : List Step) × (expand_matrix job.id job.matrix (job_instance job steps) ≡ inl mine)
        × All (IsInstanceOf job) mine
  unfolding compile_job job_instance
  compile_job-instances job ws mine h = elim (Bool-cases (is_empty (trim_space job.runs_on))) [
    | inl r ↦ let k = (rw (compile_job, r) at h) in cc
    | inr r ↦ elim (Bool-cases (is_empty job.steps)) [
      | inl n ↦ let k = (rw (compile_job, r, n) at h) in cc
      | inr n ↦ elim (Result-cases (compile_steps quote names job.id 0 job.steps)) [
        | inr (e, p) ↦ let k = (rw (compile_job, r, n, p) at h) in cc
        | inl ((vs, steps), p) ↦
            elim (Result-cases (expand_matrix job.id job.matrix (job_instance job steps))) [
              | inr (e, q) ↦ let k = (rw (compile_job, r, n, p, q) at h) in cc
              | inl (got, q) ↦
                  let k =
                    ap (λ p. p.1)
                      (inl-injective _ (ws, mine) (rw (compile_job, r, n, p, q) at h)) in
                  let c = compile_steps-Compiles quote names job.id 0 job.steps vs steps p in
                  let q' = q ∙ ap (λ l. inl l) k in
                  (
                    steps,
                    q',
                    expand_matrix-instances job (job_instance job steps) mine
                        (refl, r, refl, refl, refl, n, c) q',
                  )
            ]
      ]
    ]
  ]

  compile_jobs-Pieces :
      (jobs : List JobNode) (ws : List Warning) (is : List (JobInstance Step))
      → compile_jobs quote names jobs ≡ inl (ws, is)
      → Pieces jobs is
  unfolding compile_jobs
  compile_jobs-Pieces [] ws is h = sym (ap (λ p. p.1) (inl-injective _ (ws, is) h))
  compile_jobs-Pieces (job ∷ jobs) ws is h = elim (Result-cases (compile_job quote names job)) [
    | inr (e, p) ↦ let k = (rw (compile_jobs, p) at h) in cc
    | inl ((vs, mine), p) ↦ elim (Result-cases (compile_jobs quote names jobs)) [
      | inr (e, q) ↦ let k = (rw (compile_jobs, p, q) at h) in cc
      | inl ((us, rest), q) ↦
          let k = ap (λ p. p.1) (inl-injective _ (ws, is) (rw (compile_jobs, p, q) at h)) in
          let (steps, x, a) = compile_job-instances job vs mine p in
          (mine, rest, steps, sym k, x, a, compile_jobs-Pieces jobs us rest q)
    ]
  ]

  -- A workflow that compiles has its jobs in an order in which each stands behind those that it
  -- needs, all of them and none twice. The instances are the expansions of the jobs in this order,
  -- each with the runner, the needs and the environment of its job, a runner that is not blank,
  -- and one compiled step for each step of the job, of which there is at least one: a builtin of
  -- the registry with inputs that it supports, another action by its name, or a command.
  pub compile-Pieces :
      (wf : Workflow) (c : Compiled)
      → compile quote names (some wf) ≡ inl c
      → (ordered : List JobNode) × IsOrdered [] ordered
        × All (λ j. find_job j.id wf.jobs ≡ some j) ordered
        × All (λ j. listed j.id ordered ≡ true) wf.jobs
        × Pieces ordered c.jobs
  unfolding compile
  compile-Pieces wf c h = elim (Bool-cases (is_empty wf.jobs)) [
    | inl b ↦ let k = (rw (compile, b) at h) in cc
    | inr b ↦ elim (Result-cases (topo_sort wf.jobs)) [
      | inr (e, t) ↦ let k = (rw (compile, b, t) at h) in cc
      | inl (ordered, t) ↦ elim (Result-cases (compile_jobs quote names ordered)) [
        | inr (e, p) ↦ let k = (rw (compile, b, t, p) at h) in cc
        | inl ((ws, is), p) ↦
            let k = ap (λ c. c.jobs) (inl-injective _ c (rw (compile, b, t, p) at h)) in
            let (o, f, l) = topo_sort-IsOrdered wf.jobs ordered t in
            (ordered, o, f, l, subst (Pieces ordered) k (compile_jobs-Pieces ordered ws is p))
      ]
    ]
  ]
