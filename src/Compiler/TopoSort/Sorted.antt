-- ===== src/Compiler/TopoSort/Sorted.antt =====
-- The results of `topoSort`, whatever the jobs are.
use mathlib.Core.Path.{subst}
use mathlib.Core.List.{Memᴰ}
use forgelet.Prelude.{
  ℕ, suc, ◌≤◌, ◌<◌, none, some, List, [], ◌∷◌, Text, text_key, Map, lookup, ◌⊎◌, inl, inr, ◌≡◌, sym,
  ◌∙◌, All, true, arith, Option-cases, inl-injective, inr-injective, Result-cases, length,
}
use forgelet.Syntax.Ast.{JobNode}
use forgelet.Compiler.TopoSort.{
  TopoError, duplicate_job, unknown_job, needs_cycle, visiting, done, Walk, mark_of, visit,
  visit_all, index_jobs, unknown_needs, topo_sort,
}
use forgelet.Compiler.TopoSort.Indexed.{
  occurrences, index_jobs-lookup, index_jobs-found, index_jobs-error, unknown_need-none,
  unknown_needs-none, unknown_needs-error,
}
use forgelet.Compiler.TopoSort.Walks.{
  find_job, listed, IsOrdered, Reaches, Later, Later-done, IsTidy,
}
use forgelet.Compiler.TopoSort.Order.{Visited, Visited-same, Visited-trans, visit-Visited}
use forgelet.Compiler.TopoSort.Cycles.{IsCycle, open_count, open_count-Later, visit-Fails}

-- What each error says of the jobs.
pub data Fault (jobs : List JobNode) : TopoError → Type 0 where
  twice : {id : Text} → 2 ≤ occurrences id jobs → Fault jobs (duplicate_job id)
  missing :
      {j : JobNode} {d : Text}
      → Memᴰ j jobs
      → Memᴰ d j.needs
      → find_job d jobs ≡ none
      → Fault jobs (unknown_job j.id d)
  circular : {id : Text} → Reaches (λ d. find_job d jobs) id id → Fault jobs (needs_cycle id)

abbrev IsIdle : Walk → Type 0
IsIdle w = (id : Text) → ¬ (mark_of id w.state ≡ visiting)

Later-IsIdle : (w v : Walk) → Later w v → IsIdle w → IsIdle v
Later-IsIdle w v l i id h = elim (l id) [ inl e ↦ i id (sym e ∙ h) | inr (a, b) ↦ cc (b, h) ]

module _ (jobs : List JobNode) (by_id : Map Text JobNode)
    (agree : (d : Text) → lookup d by_id ≡ find_job d jobs) where
  visit_all-Visited :
      (n : ℕ) (js : List JobNode) (w v : Walk)
      → All (λ j. find_job j.id jobs ≡ some j) js
      → visit_all n by_id js w ≡ inl v
      → Visited jobs w v × All (λ j. mark_of j.id v.state ≡ done) js
  unfolding visit_all
  visit_all-Visited n [] w v f h = (Visited-same jobs by_id agree w v cc, tt)
  visit_all-Visited n (j ∷ js) w v (f, fs) h = elim (Result-cases (visit n by_id j w)) [
    | inl (u, e) ↦
        let (a, m) = visit-Visited jobs by_id agree n j w u f e in
        let (b, ms) = visit_all-Visited n js u v fs (rw (visit_all, e) at h) in
        (Visited-trans jobs w u v a b, (Later-done u v j.id b.later m, ms))
    | inr (d, e) ↦ let k = (rw (visit_all, e) at h) in cc
  ]

  module _
      (closed : (j : JobNode)
        → find_job j.id jobs ≡ some j
        → All (λ d. (k : JobNode) × (find_job d jobs ≡ some k)) j.needs) where
    visit_all-IsCycle :
        (n : ℕ) (js : List JobNode) (w : Walk) (e : TopoError)
        → All (λ j. find_job j.id jobs ≡ some j) js
        → IsIdle w
        → open_count jobs w < n
        → visit_all n by_id js w ≡ inr e
        → IsCycle jobs e
    unfolding visit_all
    visit_all-IsCycle n [] w e f i b h = cc
    visit_all-IsCycle n (j ∷ js) w e (f, fs) i b h = elim (Result-cases (visit n by_id j w)) [
      | inl (u, g) ↦
          let l = (visit-Visited jobs by_id agree n j w u f g).0.later in
          visit_all-IsCycle n js u e fs (Later-IsIdle w u l i)
            (omega (arith, open_count-Later jobs w u l)) (rw (visit_all, g) at h)
      | inr (d, g) ↦
          let k = (rw (visit_all, g) at h) in
          visit-Fails jobs by_id agree closed n j w e f (λ id m. absurd (i id m)) b (g ∙ k)
    ]

abbrev begin : Walk
begin = record { state = []; out = [] }

begin-IsTidy : (jobs : List JobNode) → IsTidy jobs begin
unfolding mark_of lookup
begin-IsTidy jobs = record {
  listed_done = λ id h. cc;
  done_listed = λ id h. cc;
  ordered = tt;
  found = tt;
}

begin-IsIdle : IsIdle begin
unfolding mark_of lookup
begin-IsIdle id h = cc

open_count-length : (js : List JobNode) (w : Walk) → open_count js w ≤ length js
open_count-length [] w = omega arith
open_count-length (j ∷ js) w = ground (arith, open_count-length js w)

-- The parts of a call of `topo_sort`.
index_jobs-agree :
    (jobs : List JobNode) (by_id : Map Text JobNode)
    → index_jobs jobs [] ≡ inl by_id
    → (d : Text) → lookup d by_id ≡ find_job d jobs
unfolding lookup
index_jobs-agree jobs by_id h d = index_jobs-lookup jobs [] by_id d h

agreed-All :
    (jobs : List JobNode) (by_id : Map Text JobNode)
    → ((d : Text) → lookup d by_id ≡ find_job d jobs)
    → (js : List JobNode) → All (λ j. lookup j.id by_id ≡ some j) js
    → All (λ j. find_job j.id jobs ≡ some j) js
agreed-All jobs by_id a [] h = tt
agreed-All jobs by_id a (j ∷ js) h = (sym (a j.id) ∙ h.0, agreed-All jobs by_id a js h.1)

agreed-closed :
    (jobs : List JobNode) (by_id : Map Text JobNode)
    → ((d : Text) → lookup d by_id ≡ find_job d jobs)
    → (ds : List Text) → All (λ d. (k : JobNode) × (lookup d by_id ≡ some k)) ds
    → All (λ d. (k : JobNode) × (find_job d jobs ≡ some k)) ds
agreed-closed jobs by_id a [] h = tt
agreed-closed jobs by_id a (d ∷ ds) ((k, e), h) =
    ((k, sym (a d) ∙ e), agreed-closed jobs by_id a ds h)

marked-listed :
    (jobs js : List JobNode) (w : Walk)
    → IsTidy jobs w
    → All (λ j. mark_of j.id w.state ≡ done) js
    → All (λ j. listed j.id w.out ≡ true) js
marked-listed jobs [] w t h = tt
marked-listed jobs (j ∷ js) w t h = (t.done_listed j.id h.0, marked-listed jobs js w t h.1)

-- The map is empty at first.
first_map :
    (id : Text) (jobs : List JobNode)
    → (2 ≤ occurrences id jobs)
      ⊎ (1 ≤ occurrences id jobs) × ((k : JobNode) × (lookup id [] ≡ some k))
    → 2 ≤ occurrences id jobs
unfolding lookup
first_map id jobs (inl h) = h
first_map id jobs (inr (h, (k, l))) = cc

-- Whenever the sort returns jobs, they are jobs of the input, each stands behind all the jobs that
-- it needs, no id is repeated, and no job of the input is missing.
pub topo_sort-IsOrdered :
    (jobs out : List JobNode)
    → topo_sort jobs ≡ inl out
    → IsOrdered [] out
      × All (λ j. find_job j.id jobs ≡ some j) out
      × All (λ j. listed j.id out ≡ true) jobs
unfolding topo_sort
topo_sort-IsOrdered jobs out h = elim (Result-cases (index_jobs jobs [])) [
  | inr (e, i) ↦ let k = (rw (topo_sort, i) at h) in cc
  | inl (by_id, i) ↦ elim (Option-cases (unknown_needs by_id jobs)) [
    | inr (e, u) ↦ let k = (rw (topo_sort, i, u) at h) in cc
    | inl u ↦ elim (Result-cases (visit_all (suc (length jobs)) by_id jobs begin)) [
      | inr (e, v) ↦ let k = (rw (topo_sort, i, u, v) at h) in cc
      | inl (w, v) ↦
          let k = (rw (topo_sort, i, u, v) at h) in
          let agree = index_jobs-agree jobs by_id i in
          let (a, m) =
            visit_all-Visited jobs by_id agree (suc (length jobs)) jobs begin w
              (agreed-All jobs by_id agree jobs (index_jobs-found jobs [] by_id i)) v in
          let t = a.tidy (begin-IsTidy jobs) in
          let o = inl-injective w.out out k in
          subst
            (λ l.
              IsOrdered [] l
              × All (λ j. find_job j.id jobs ≡ some j) l
              × All (λ j. listed j.id l ≡ true) jobs)
            o (t.ordered, t.found, marked-listed jobs jobs w t m)
    ]
  ]
]

-- The sort fails only for a reason: an id that two jobs have, a need that names no job, or a job
-- that needs itself by a chain of needs, and the error names it. It neither panics nor fails to end.
pub topo_sort-Fault : (jobs : List JobNode) (e : TopoError) → topo_sort jobs ≡ inr e → Fault jobs e
unfolding topo_sort
topo_sort-Fault jobs e h = elim (Result-cases (index_jobs jobs [])) [
  | inr (d, i) ↦
      let k = (rw (topo_sort, i) at h) in
      let (id, d', r) = index_jobs-error jobs [] d i in
      subst (Fault jobs) (sym d' ∙ inr-injective d e k) (twice (first_map id jobs r))
  | inl (by_id, i) ↦ elim (Option-cases (unknown_needs by_id jobs)) [
    | inr (d, u) ↦
        let k = (rw (topo_sort, i, u) at h) in
        let (j, c, d', m, n, l) = unknown_needs-error by_id jobs d u in
        subst (Fault jobs) (sym d' ∙ inr-injective d e k)
          (missing m n (sym (index_jobs-agree jobs by_id i c) ∙ l))
    | inl u ↦ elim (Result-cases (visit_all (suc (length jobs)) by_id jobs begin)) [
      | inl (w, v) ↦ let k = (rw (topo_sort, i, u, v) at h) in cc
      | inr (d, v) ↦
          let k = (rw (topo_sort, i, u, v) at h) in
          let agree = index_jobs-agree jobs by_id i in
          let (id, d', r) =
            visit_all-IsCycle jobs by_id agree
              (λ j f.
                agreed-closed jobs by_id agree j.needs
                  (unknown_need-none by_id j.needs (unknown_needs-none by_id jobs j.id j u f)))
              (suc (length jobs)) jobs begin d
              (agreed-All jobs by_id agree jobs (index_jobs-found jobs [] by_id i)) begin-IsIdle
              (omega (arith, open_count-length jobs begin)) v in
          subst (Fault jobs) (sym d' ∙ inr-injective d e k) (circular r)
    ]
  ]
]
