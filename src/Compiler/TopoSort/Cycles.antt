-- ===== src/Compiler/TopoSort/Cycles.antt =====
-- What an error of `visit` says: a job that needs itself by a chain of needs, and nothing else.
use mathlib.Core.List.{Memᴰ}
use forgelet.Prelude.{
  ℕ, zero, suc, ◌≤◌, ◌<◌, some, List, [], ◌∷◌, Text, text_key, Map, lookup, ◌⊎◌, inl, inr, ◌≡◌,
  refl, sym, ap, ◌∙◌, All, Bool, true, false, arith, if◌then◌else◌, Result-cases, if_neg,
}
use forgelet.Syntax.Ast.{JobNode}
use forgelet.Compiler.TopoSort.{
  TopoError, needs_cycle, Mark, unvisited, visiting, done, Walk, mark_of, start, finished, visit,
  visit_needs,
}
use forgelet.Compiler.TopoSort.Walks.{
  find_job, Reaches, need, through, Later, Mark-cases, mark_of-same, mark_of-other,
}
use forgelet.Compiler.TopoSort.Order.{find_job-id, Visits, visit-Visited}

abbrev is_open : Mark → Bool
is_open unvisited = true
is_open visiting = false
is_open done = false

-- How many jobs are still to be visited.
abbrev pub open_count : List JobNode → Walk → ℕ
open_count [] w = 0
open_count (j ∷ js) w =
    let rest = open_count js w in if is_open (mark_of j.id w.state) then suc rest else rest

abbrev Shrinks : Walk → Walk → Type 0
Shrinks w v = (id : Text) → mark_of id v.state ≡ unvisited → mark_of id w.state ≡ unvisited

Later-Shrinks : (w v : Walk) → Later w v → Shrinks w v
Later-Shrinks w v l id h = elim (l id) [ inl e ↦ sym e ∙ h | inr (a, b) ↦ a ]

start-Shrinks : (j : JobNode) (w : Walk) → Shrinks w (start j w)
start-Shrinks j w id h = elim (text_key.dec j.id id) [
  | yes e ↦ cc (h, mark_of-same id j.id visiting w.state e)
  | no e ↦ sym (mark_of-other id j.id visiting w.state e) ∙ h
]

open-cons :
    (j : JobNode) (w v : Walk)
    → Shrinks w v
    → (is_open (mark_of j.id v.state) ≡ false)
      ⊎ (is_open (mark_of j.id w.state) ≡ true) × (is_open (mark_of j.id v.state) ≡ true)
open-cons j w v s = elim (Mark-cases (mark_of j.id v.state)) [
  | inl m ↦ let k = s j.id m in inr (rw k refl, rw m refl)
  | inr (inl m) ↦ inl (rw m refl)
  | inr (inr m) ↦ inl (rw m refl)
]

open_count-le : (js : List JobNode) (w v : Walk) → Shrinks w v → open_count js v ≤ open_count js w
open_count-le [] w v s = omega arith
open_count-le (j ∷ js) w v s = ground (arith, open-cons j w v s, open_count-le js w v s)

-- One that is in the list and no longer open makes it strict.
open_count-lt :
    (js : List JobNode) (w v : Walk) (id : Text) (j : JobNode)
    → Shrinks w v
    → find_job id js ≡ some j
    → mark_of id w.state ≡ unvisited
    → mark_of id v.state ≡ visiting
    → open_count js v < open_count js w
open_count-lt [] w v id j s f u m = cc
open_count-lt (k ∷ js) w v id j s f u m = elim (text_key.dec k.id id) [
  | yes e ↦
      let a = (rw (sym e) at u) in
      let b = (rw (sym e) at m) in rw (a, b) omega (arith, open_count-le js w v s)
  | no e ↦
      let f' = (rw (if_neg (text_key.dec k.id id) e) at f) in
      ground (arith, open-cons k w v s, open_count-lt js w v id j s f' u m)
]

no_fuel : (n : ℕ) → ¬ (n < 0)
no_fuel n h = omega arith

pub open_count-Later :
    (js : List JobNode) (w v : Walk) → Later w v → open_count js v ≤ open_count js w
open_count-Later js w v l = open_count-le js w v (Later-Shrinks w v l)

abbrev pub IsCycle : List JobNode → TopoError → Type 0
IsCycle jobs e = (id : Text) × (e ≡ needs_cycle id) × Reaches (λ d. find_job d jobs) id id

visit_needs-failed :
    (go : JobNode → Walk → Walk ⊎ TopoError) (by_id : Map Text JobNode) (d : Text) (ds : List Text)
    (j : JobNode) (w : Walk) (e : TopoError)
    → lookup d by_id ≡ some j
    → visit_needs go by_id (d ∷ ds) w ≡ inr e
    → (go j w ≡ inr e) ⊎ ((u : Walk) × (go j w ≡ inl u) × (visit_needs go by_id ds u ≡ inr e))
unfolding visit_needs
visit_needs-failed go by_id d ds j w e l h = elim (Result-cases (go j w)) [
  | inl (u, g) ↦ let k = (rw (visit_needs, l, g) at h) in inr (u, g, k)
  | inr (d, g) ↦ let k = (rw (visit_needs, l, g) at h) in inl (g ∙ k)
]

finished-failed :
    (j : JobNode) (r : Walk ⊎ TopoError) (e : TopoError) → finished j r ≡ inr e → r ≡ inr e
finished-failed j (inl u) e h = cc
finished-failed j (inr d) e h = cc

visit-failed :
    (n : ℕ) (by_id : Map Text JobNode) (j : JobNode) (w : Walk) (e : TopoError)
    → visit (suc n) by_id j w ≡ inr e
    → (mark_of j.id w.state ≡ visiting) × (e ≡ needs_cycle j.id)
      ⊎ (mark_of j.id w.state ≡ unvisited)
        × (visit_needs (visit n by_id) by_id j.needs (start j w) ≡ inr e)
unfolding visit
visit-failed n by_id j w e h = elim (Mark-cases (mark_of j.id w.state)) [
  | inl m ↦
      let k = (rw (visit, m) at h) in
      inr (m, finished-failed j (visit_needs (visit n by_id) by_id j.needs (start j w)) e k)
  | inr (inl m) ↦ let k = (rw (visit, m) at h) in inl (m, cc)
  | inr (inr m) ↦ let k = (rw (visit, m) at h) in cc
]

module _ (jobs : List JobNode) (by_id : Map Text JobNode)
    (agree : (d : Text) → lookup d by_id ≡ find_job d jobs)
    (closed : (j : JobNode)
      → find_job j.id jobs ≡ some j
      → All (λ d. (k : JobNode) × (find_job d jobs ≡ some k)) j.needs) where
  -- The jobs that are being visited lead to this one.
  abbrev pub Leads : Walk → Text → Type 0
  Leads w d = (id : Text) → mark_of id w.state ≡ visiting → Reaches (λ d. find_job d jobs) id d

  abbrev Fails : ℕ → (JobNode → Walk → Walk ⊎ TopoError) → Type 0
  Fails n go =
      (j : JobNode) (w : Walk) (e : TopoError)
      → find_job j.id jobs ≡ some j
      → Leads w j.id
      → open_count jobs w < n
      → go j w ≡ inr e
      → IsCycle jobs e

  Later-Leads : (w v : Walk) (d : Text) → Later w v → Leads w d → Leads v d
  Later-Leads w v d l s id h = elim (l id) [ inl e ↦ s id (sym e ∙ h) | inr (a, b) ↦ cc (b, h) ]

  All-Leads : (w v : Walk) (ds : List Text) → Later w v → All (Leads w) ds → All (Leads v) ds
  All-Leads w v [] l h = tt
  All-Leads w v (d ∷ ds) l h = (Later-Leads w v d l h.0, All-Leads w v ds l h.1)

  visit_needs-Fails :
      (n : ℕ) (go : JobNode → Walk → Walk ⊎ TopoError)
      → Fails n go
      → Visits jobs by_id agree go
      → (ds : List Text) (w : Walk) (e : TopoError)
      → All (λ d. (k : JobNode) × (find_job d jobs ≡ some k)) ds
      → All (Leads w) ds
      → open_count jobs w < n
      → visit_needs go by_id ds w ≡ inr e
      → IsCycle jobs e
  unfolding visit_needs
  visit_needs-Fails n go bad ok [] w e c s b h = cc
  visit_needs-Fails n go bad ok (d ∷ ds) w e ((j, f), c) (s, ss) b h =
      let i = find_job-id d jobs j f in
      let f' = ap (λ x. find_job x jobs) i ∙ f in
      elim (visit_needs-failed go by_id d ds j w e (agree d ∙ f) h) [
        | inl g ↦ bad j w e f' (rw i s) b g
        | inr (u, g, k) ↦
            let l = (ok j w u f' g).0.later in
            visit_needs-Fails n go bad ok ds u e c (All-Leads w u ds l ss)
              (omega (arith, open_count-Later jobs w u l)) k
      ]

  -- The needs of a job that is being visited now.
  needs-Leads :
      (j : JobNode) (w : Walk)
      → find_job j.id jobs ≡ some j
      → Leads w j.id
      → (ds : List Text) → ((d : Text) → Memᴰ d ds → Memᴰ d j.needs)
      → All (Leads (start j w)) ds
  needs-Leads j w f s [] sub = tt
  needs-Leads j w f s (d ∷ ds) sub = (
    λ id h. elim (text_key.dec j.id id) [
      | yes e ↦ rw (sym e) (need j f (sub d (Memᴰ.head refl)))
      | no e ↦
          through (s id (sym (mark_of-other id j.id visiting w.state e) ∙ h))
            (need j f (sub d (Memᴰ.head refl)))
    ],
    needs-Leads j w f s ds (λ x m. sub x (Memᴰ.tail m)),
  )

  pub visit-Fails : (n : ℕ) → Fails n (visit n by_id)
  visit-Fails zero j w e f s b h = absurd (no_fuel (open_count jobs w) b)
  visit-Fails (suc n) j w e f s b h = elim (visit-failed n by_id j w e h) [
    | inl (m, k) ↦ (j.id, k, s j.id m)
    | inr (m, k) ↦
        visit_needs-Fails n (visit n by_id) (visit-Fails n) (visit-Visited jobs by_id agree n)
          j.needs (start j w) e (closed j f) (needs-Leads j w f s j.needs (λ d m. m))
          (omega (
            arith,
            open_count-lt jobs w (start j w) j.id j (start-Shrinks j w) f m
                (mark_of-same j.id j.id visiting w.state refl),
          ))
          k
  ]
