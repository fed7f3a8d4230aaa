-- ===== src/Compiler/TopoSort/Indexed.antt =====
-- The map of the jobs by id, and the search for unknown needs.
use mathlib.Core.List.{Memᴰ}
use forgelet.Prelude.{
  ℕ, suc, ◌≤◌, Option, none, some, List, [], ◌∷◌, Text, text_key, Map, lookup, insert, ◌⊎◌, inl,
  inr, ◌≡◌, refl, sym, ◌∙◌, All, true, false, arith, Option-cases, some-injective, is, if_pos,
  if_neg, lookup-insert, length, keep,
}
use forgelet.Syntax.Ast.{JobNode}
use forgelet.Compiler.TopoSort.{
  TopoError, duplicate_job, unknown_job, index_jobs, unknown_need, unknown_needs,
}
use forgelet.Compiler.TopoSort.Walks.{find_job}

abbrev pub occurrences : Text → List JobNode → ℕ
occurrences id js = length (keep (λ j. is j.id id) js)

is-yes : (a b : Text) → a ≡ b → is a b ≡ true
is-yes a b e = if_pos (text_key.dec a b) e true false

is-no : (a b : Text) → ¬ (a ≡ b) → is a b ≡ false
is-no a b e = if_neg (text_key.dec a b) e true false

occurrences-same :
    (id : Text) (j : JobNode) (js : List JobNode)
    → j.id ≡ id
    → occurrences id (j ∷ js) ≡ suc (occurrences id js)
occurrences-same id j js e = rw (is-yes j.id id e) refl

occurrences-le :
    (id : Text) (j : JobNode) (js : List JobNode) → occurrences id js ≤ occurrences id (j ∷ js)
occurrences-le id j js = ground arith

abbrev either : Option JobNode → Option JobNode → Option JobNode
either (some k) o = some k
either none o = o

index_jobs-step :
    (j : JobNode) (js : List JobNode) (m by_id : Map Text JobNode)
    → index_jobs (j ∷ js) m ≡ inl by_id
    → (lookup j.id m ≡ none) × (index_jobs js (insert j.id j m) ≡ inl by_id)
unfolding index_jobs
index_jobs-step j js m by_id h = elim (Option-cases (lookup j.id m)) [
  | inl e ↦ (e, rw (index_jobs, e) at h)
  | inr (k, e) ↦ let c = (rw (index_jobs, e) at h) in cc
]

pub index_jobs-lookup :
    (js : List JobNode) (m by_id : Map Text JobNode) (d : Text)
    → index_jobs js m ≡ inl by_id
    → lookup d by_id ≡ either (lookup d m) (find_job d js)
unfolding index_jobs
index_jobs-lookup [] m by_id d h = ground arith
index_jobs-lookup (j ∷ js) m by_id d h =
    let (fresh, rest) = index_jobs-step j js m by_id h in
    let ih = index_jobs-lookup js (insert j.id j m) by_id d rest in
    let l = lookup-insert j.id d j m in
    elim (text_key.dec j.id d) [
      | yes e ↦
          let f = (rw e at fresh) in
          let l' = l ∙ if_pos (text_key.dec j.id d) e (some j) (lookup d m) in
          let ih' = (rw l' at ih) in rw (f, is-yes j.id d e) ih'
      | no e ↦
          let l' = l ∙ if_neg (text_key.dec j.id d) e (some j) (lookup d m) in
          let ih' = (rw l' at ih) in rw (is-no j.id d e) ih'
    ]

pub index_jobs-found :
    (js : List JobNode) (m by_id : Map Text JobNode)
    → index_jobs js m ≡ inl by_id
    → All (λ j. lookup j.id by_id ≡ some j) js
index_jobs-found [] m by_id h = tt
index_jobs-found (j ∷ js) m by_id h =
    let (fresh, rest) = index_jobs-step j js m by_id h in
    let l =
      lookup-insert j.id j.id j m ∙ if_pos (text_key.dec j.id j.id) refl (some j) (lookup j.id m) in
    let e = index_jobs-lookup js (insert j.id j m) by_id j.id rest in
    (rw l at e, index_jobs-found js (insert j.id j m) by_id rest)

-- The occurrences of a job that the rest repeats, and of one that the map held before.
repeated :
    (id : Text) (j : JobNode) (js : List JobNode) (m : Map Text JobNode)
    → (2 ≤ occurrences id js)
      ⊎ (1 ≤ occurrences id js) × ((k : JobNode) × (lookup id (insert j.id j m) ≡ some k))
    → (2 ≤ occurrences id (j ∷ js))
      ⊎ (1 ≤ occurrences id (j ∷ js)) × ((k : JobNode) × (lookup id m ≡ some k))
repeated id j js m (inl h) = inl (omega (arith, occurrences-le id j js))
repeated id j js m (inr (h, (k, l))) = elim (text_key.dec j.id id) [
  | yes e ↦ inl (omega (arith, occurrences-same id j js e))
  | no e ↦
      let l' = lookup-insert j.id id j m ∙ if_neg (text_key.dec j.id id) e (some j) (lookup id m) in
      inr (omega (arith, occurrences-le id j js), (k, sym l' ∙ l))
]

pub index_jobs-error :
    (js : List JobNode) (m : Map Text JobNode) (e : TopoError)
    → index_jobs js m ≡ inr e
    → (id : Text) × (e ≡ duplicate_job id)
      × ((2 ≤ occurrences id js)
          ⊎ (1 ≤ occurrences id js) × ((k : JobNode) × (lookup id m ≡ some k)))
unfolding index_jobs
index_jobs-error [] m e h = cc
index_jobs-error (j ∷ js) m e h = elim (Option-cases (lookup j.id m)) [
  | inr (k, l) ↦
      let c = (rw (index_jobs, l) at h) in
      (j.id, cc, inr (omega (arith, occurrences-same j.id j js refl), (k, l)))
  | inl l ↦
      let c = (rw (index_jobs, l) at h) in
      let (id, e', r) = index_jobs-error js (insert j.id j m) e c in (id, e', repeated id j js m r)
]

unknown_need-error :
    (by_id : Map Text JobNode) (ds : List Text) (d : Text)
    → unknown_need by_id ds ≡ some d
    → Memᴰ d ds × (lookup d by_id ≡ none)
unfolding unknown_need
unknown_need-error by_id [] d h = cc
unknown_need-error by_id (c ∷ ds) d h = elim (Option-cases (lookup c by_id)) [
  | inl e ↦
      let k = (rw (unknown_need, e) at h) in
      let k' = some-injective c d k in (Memᴰ.head (sym k'), rw k' at e)
  | inr (j, e) ↦
      let (m, l) = unknown_need-error by_id ds d (rw (unknown_need, e) at h) in (Memᴰ.tail m, l)
]

pub unknown_need-none :
    (by_id : Map Text JobNode) (ds : List Text)
    → unknown_need by_id ds ≡ none
    → All (λ d. (k : JobNode) × (lookup d by_id ≡ some k)) ds
unfolding unknown_need
unknown_need-none by_id [] h = tt
unknown_need-none by_id (d ∷ ds) h = elim (Option-cases (lookup d by_id)) [
  | inl e ↦ let c = (rw (unknown_need, e) at h) in cc
  | inr (k, e) ↦ ((k, e), unknown_need-none by_id ds (rw (unknown_need, e) at h))
]

unknown_needs-step :
    (by_id : Map Text JobNode) (j : JobNode) (js : List JobNode)
    → unknown_needs by_id (j ∷ js) ≡ none
    → (unknown_need by_id j.needs ≡ none) × (unknown_needs by_id js ≡ none)
unfolding unknown_needs
unknown_needs-step by_id j js h = elim (Option-cases (unknown_need by_id j.needs)) [
  | inl e ↦ (e, rw (unknown_needs, e) at h)
  | inr (d, e) ↦ let k = (rw (unknown_needs, e) at h) in cc
]

pub unknown_needs-none :
    (by_id : Map Text JobNode) (js : List JobNode) (d : Text) (j : JobNode)
    → unknown_needs by_id js ≡ none
    → find_job d js ≡ some j
    → unknown_need by_id j.needs ≡ none
unknown_needs-none by_id [] d j h f = cc
unknown_needs-none by_id (k ∷ js) d j h f =
    let (a, b) = unknown_needs-step by_id k js h in
    elim (text_key.dec k.id d) [
      | yes e ↦ let g = some-injective k j (rw (is-yes k.id d e) at f) in rw g at a
      | no e ↦ unknown_needs-none by_id js d j b (rw (is-no k.id d e) at f)
    ]

pub unknown_needs-error :
    (by_id : Map Text JobNode) (js : List JobNode) (e : TopoError)
    → unknown_needs by_id js ≡ some e
    → (j : JobNode) × (d : Text) × (e ≡ unknown_job j.id d)
      × Memᴰ j js
      × Memᴰ d j.needs
      × (lookup d by_id ≡ none)
unfolding unknown_needs
unknown_needs-error by_id [] e h = cc
unknown_needs-error by_id (j ∷ js) e h = elim (Option-cases (unknown_need by_id j.needs)) [
  | inl n ↦
      let (k, d, e', m, q, r) = unknown_needs-error by_id js e (rw (unknown_needs, n) at h) in
      (k, d, e', Memᴰ.tail m, q, r)
  | inr (d, n) ↦
      let k = some-injective (unknown_job j.id d) e (rw (unknown_needs, n) at h) in
      let (m, l) = unknown_need-error by_id j.needs d n in (j, d, sym k, Memᴰ.head refl, m, l)
]
