-- ===== src/Compiler/TopoSort/Order.antt =====
-- The order that `topoSort` returns, and the errors that it reports.
use mathlib.Core.Path.{subst}
use forgelet.Prelude.{
  ℕ, zero, suc, some, List, [], ◌∷◌, Text, text_key, Map, lookup, ◌⊎◌, inl, inr, ◌≡◌, refl, sym, ap,
  ◌∙◌, All, arith,
}
use forgelet.Syntax.Ast.{JobNode}
use forgelet.Compiler.TopoSort.{
  TopoError, unvisited, visiting, done, Walk, mark_of, start, finish, finished, visit, visit_needs,
}
use forgelet.Compiler.TopoSort.Walks.{
  find_job, Later, IsTidy, Mark-cases, mark_of-same, Later-done, Later-trans, start-finish,
  start-IsTidy, finish-IsTidy,
}

still_visiting :
    (w v : Walk) (id : Text)
    → Later w v
    → mark_of id w.state ≡ visiting
    → mark_of id v.state ≡ visiting
still_visiting w v id l s = elim (l id) [ inl d ↦ d ∙ s | inr (d, _) ↦ cc (d, s) ]

pub record Visited (jobs : List JobNode) (w v : Walk) : Type 0 where
  pub later : Later w v
  pub tidy : IsTidy jobs w → IsTidy jobs v

pub Visited-trans :
    (jobs : List JobNode) (u v w : Walk) → Visited jobs u v → Visited jobs v w → Visited jobs u w
Visited-trans jobs u v w a b = record {
  later = Later-trans u v w a.later b.later;
  tidy = λ t. b.tidy (a.tidy t);
}

pub find_job-id :
    (d : Text) (jobs : List JobNode) (j : JobNode) → find_job d jobs ≡ some j → j.id ≡ d
find_job-id d [] j h = cc
find_job-id d (k ∷ ks) j h = ground (arith, find_job-id d ks j)

-- The step equations of the two loops.
visit_needs-step :
    (go : JobNode → Walk → Walk ⊎ TopoError) (by_id : Map Text JobNode) (d : Text) (ds : List Text)
    (w v : Walk)
    → visit_needs go by_id (d ∷ ds) w ≡ inl v
    → (j : JobNode) × (u : Walk) × (lookup d by_id ≡ some j)
      × (go j w ≡ inl u)
      × (visit_needs go by_id ds u ≡ inl v)
unfolding visit_needs
visit_needs-step go by_id d ds w v h = ground arith

finished-step :
    (j : JobNode) (r : Walk ⊎ TopoError) (v : Walk)
    → finished j r ≡ inl v
    → (u : Walk) × (r ≡ inl u) × (finish j u ≡ v)
finished-step j (inl u) v h = (u, refl, cc)
finished-step j (inr e) v h = cc

visit-step :
    (n : ℕ) (by_id : Map Text JobNode) (j : JobNode) (w v : Walk)
    → visit (suc n) by_id j w ≡ inl v
    → (mark_of j.id w.state ≡ done) × (w ≡ v)
      ⊎ (mark_of j.id w.state ≡ unvisited)
        × ((u : Walk) × (visit_needs (visit n by_id) by_id j.needs (start j w) ≡ inl u)
            × (finish j u ≡ v))
unfolding visit
visit-step n by_id j w v h = elim (Mark-cases (mark_of j.id w.state)) [
  | inl m ↦
      let h1 = (rw (visit, m) at h) in
      inr (m, finished-step j (visit_needs (visit n by_id) by_id j.needs (start j w)) v h1)
  | inr (inl m) ↦ let h1 = (rw (visit, m) at h) in cc
  | inr (inr m) ↦ let h1 = (rw (visit, m) at h) in inl (m, cc)
]

module _ (jobs : List JobNode) (by_id : Map Text JobNode)
    (agree : (d : Text) → lookup d by_id ≡ find_job d jobs) where
  abbrev pub Visits : (JobNode → Walk → Walk ⊎ TopoError) → Type 0
  Visits go =
      (j : JobNode) (w v : Walk)
      → find_job j.id jobs ≡ some j
      → go j w ≡ inl v
      → Visited jobs w v × (mark_of j.id v.state ≡ done)

  pub Visited-same : (w v : Walk) → w ≡ v → Visited jobs w v
  Visited-same w v e = record {
    later = λ id. inl (ap (λ x. mark_of id x.state) (sym e));
    tidy = λ t. rw e at t;
  }

  visit_needs-Visited :
      (go : JobNode → Walk → Walk ⊎ TopoError)
      → Visits go
      → (ds : List Text) (w v : Walk) → visit_needs go by_id ds w ≡ inl v
      → Visited jobs w v × All (λ d. mark_of d v.state ≡ done) ds
  unfolding visit_needs
  visit_needs-Visited go ok [] w v h = (Visited-same w v cc, tt)
  visit_needs-Visited go ok (d ∷ ds) w v h =
      let (j, u, found, gone, rest) = visit_needs-step go by_id d ds w v h in
      let e = sym (agree d) ∙ found in
      let (a, m) = ok j w u (rw (find_job-id d jobs j e) e) gone in
      let (b, ms) = visit_needs-Visited go ok ds u v rest in
      (
        Visited-trans jobs w u v a b,
        (Later-done u v d b.later (rw (find_job-id d jobs j e) at m), ms),
      )

  pub visit-Visited : (n : ℕ) → Visits (visit n by_id)
  unfolding visit
  visit-Visited zero j w v f h = cc
  visit-Visited (suc n) j w v f h = elim (visit-step n by_id j w v h) [
    | inl (m, e) ↦ (Visited-same w v e, rw e at m)
    | inr (m, (u, e, e')) ↦
        let (a, ms) =
          visit_needs-Visited (visit n by_id) (visit-Visited n) j.needs (start j w) u e in
        let t = mark_of-same j.id j.id done u.state refl in
        let s = mark_of-same j.id j.id visiting w.state refl in
        let kept = still_visiting (start j w) u j.id a.later s in
        subst (λ x. Visited jobs w x × (mark_of j.id x.state ≡ done)) e'
          (
            record {
              later = start-finish j w u m a.later;
              tidy = λ t. finish-IsTidy jobs j u kept ms f (a.tidy (start-IsTidy jobs j w m t));
            },
            t,
          )
  ]
