-- ===== src/Compiler/TopoSort/Walks.antt =====
-- What one call of `visit` does to the marks and to the order so far.
use mathlib.Core.List.{Memᴰ, append-nil, append_assoc}
use forgelet.Prelude.{
  Option, none, some, List, [], ◌∷◌, ◌++◌, Text, text_key, Map, insert, is, any, ◌⊎◌, inl, inr, ◌≡◌,
  refl, sym, ◌∙◌, All, Bool, true, false, arith, if◌then◌else◌, lookup-insert, ite, Bool-cases,
  if_pos, if_neg, ◌||◌,
}
use forgelet.Syntax.Ast.{JobNode}
use forgelet.Compiler.TopoSort.{Mark, unvisited, visiting, done, Walk, mark_of, start, finish}

-- The job with the id.
abbrev pub find_job : Text → List JobNode → Option JobNode
find_job id [] = none
find_job id (j ∷ js) = if is j.id id then some j else find_job id js

abbrev pub listed : Text → List JobNode → Bool
listed id = any (λ j. is j.id id)

-- Each job stands behind the jobs that it needs, and no id stands there twice.
abbrev pub IsOrdered : List JobNode → List JobNode → Type 0
IsOrdered seen [] = Unit
IsOrdered seen (j ∷ js) =
    All (λ d. listed d seen ≡ true) j.needs
    × (listed j.id seen ≡ false)
    × IsOrdered (seen ++ j ∷ []) js

-- A chain of needs, of one job at least.
pub data Reaches (find : Text → Option JobNode) : Text → Text → Type 0 where
  need : (j : JobNode) {d : Text} → find j.id ≡ some j → Memᴰ d j.needs → Reaches find j.id d
  through : {a b c : Text} → Reaches find a b → Reaches find b c → Reaches find a c

-- The marks that a call which returns may change.
abbrev pub Later : Walk → Walk → Type 0
Later w v =
    (id : Text)
    → (mark_of id v.state ≡ mark_of id w.state)
      ⊎ (mark_of id w.state ≡ unvisited) × (mark_of id v.state ≡ done)

pub Mark-cases : (m : Mark) → (m ≡ unvisited) ⊎ (m ≡ visiting) ⊎ (m ≡ done)
Mark-cases unvisited = inl refl
Mark-cases visiting = inr (inl refl)
Mark-cases done = inr (inr refl)

pub mark_of-insert :
    (id key : Text) (k : Mark) (m : Map Text Mark)
    → mark_of id (insert key k m) ≡ ite (text_key.dec key id) k (mark_of id m)
unfolding mark_of
mark_of-insert id key k m = ground (arith, lookup-insert key id k m)

pub mark_of-same :
    (id key : Text) (k : Mark) (m : Map Text Mark) → key ≡ id → mark_of id (insert key k m) ≡ k
mark_of-same id key k m e =
    mark_of-insert id key k m ∙ if_pos (text_key.dec key id) e k (mark_of id m)

pub mark_of-other :
    (id key : Text) (k : Mark) (m : Map Text Mark)
    → ¬ (key ≡ id)
    → mark_of id (insert key k m) ≡ mark_of id m
mark_of-other id key k m e =
    mark_of-insert id key k m ∙ if_neg (text_key.dec key id) e k (mark_of id m)

-- The marks and the order agree.
pub record IsTidy (jobs : List JobNode) (w : Walk) : Type 0 where
  pub listed_done : (id : Text) → listed id w.out ≡ true → mark_of id w.state ≡ done
  pub done_listed : (id : Text) → mark_of id w.state ≡ done → listed id w.out ≡ true
  pub ordered : IsOrdered [] w.out
  pub found : All (λ j. find_job j.id jobs ≡ some j) w.out

listed-append :
    (id : Text) (xs ys : List JobNode) → listed id (xs ++ ys) ≡ listed id xs || listed id ys
listed-append id [] ys = refl
listed-append id (x ∷ xs) ys = let ih = listed-append id xs ys in ground arith

listed-snoc_other :
    (id : Text) (xs : List JobNode) (j : JobNode)
    → ¬ (j.id ≡ id)
    → listed id (xs ++ j ∷ []) ≡ true
    → listed id xs ≡ true
listed-snoc_other id xs j e h = ground (arith, listed-append id xs (j ∷ []))

listed-snoc :
    (id : Text) (xs : List JobNode) (j : JobNode)
    → (j.id ≡ id) ⊎ (listed id xs ≡ true)
    → listed id (xs ++ j ∷ []) ≡ true
listed-snoc id xs j (inl e) = ground (arith, listed-append id xs (j ∷ []))
listed-snoc id xs j (inr e) = ground (arith, listed-append id xs (j ∷ []))

IsOrdered-snoc :
    (seen xs : List JobNode) (j : JobNode)
    → IsOrdered seen xs
    → All (λ d. listed d (seen ++ xs) ≡ true) j.needs
    → listed j.id (seen ++ xs) ≡ false
    → IsOrdered seen (xs ++ j ∷ [])
IsOrdered-snoc seen [] j h n f = let e = append-nil seen in (rw e at n, rw e at f, tt)
IsOrdered-snoc seen (x ∷ xs) j (a, b, h) n f =
    let e = sym (append_assoc seen (x ∷ []) xs) in
    (a, b, IsOrdered-snoc (seen ++ x ∷ []) xs j h (rw e at n) (rw e at f))

All-snoc :
    (P : JobNode → Type 0) (xs : List JobNode) (j : JobNode) → All P xs → P j → All P (xs ++ j ∷ [])
All-snoc P [] j h p = (p, tt)
All-snoc P (x ∷ xs) j h p = (h.0, All-snoc P xs j h.1 p)

pub Later-done :
    (w v : Walk) (id : Text) → Later w v → mark_of id w.state ≡ done → mark_of id v.state ≡ done
Later-done w v id l h = elim (l id) [ inl e ↦ e ∙ h | inr (_, e) ↦ e ]

pub Later-trans : (u v w : Walk) → Later u v → Later v w → Later u w
Later-trans u v w f g id = elim (f id) [
  | inl e ↦ elim (g id) [ inl d ↦ inl (d ∙ e) | inr (a, b) ↦ inr (sym e ∙ a, b) ]
  | inr (a, b) ↦ elim (g id) [ inl d ↦ inr (a, d ∙ b) | inr (c, d) ↦ inr (a, d) ]
]

-- From the start of an unvisited job to its finish.
pub start-finish :
    (j : JobNode) (w v : Walk)
    → mark_of j.id w.state ≡ unvisited
    → Later (start j w) v
    → Later w (finish j v)
start-finish j w v u l id = elim (text_key.dec j.id id) [
  | yes e ↦ inr (rw e at u, mark_of-same id j.id done v.state e)
  | no e ↦
      let s = mark_of-other id j.id visiting w.state e in
      let f = mark_of-other id j.id done v.state e in
      elim (l id) [ inl d ↦ inl (f ∙ d ∙ s) | inr (a, b) ↦ inr (sym s ∙ a, f ∙ b) ]
]

pub All-mono :
    (P Q : Text → Type 0) (xs : List Text) → ((x : Text) → P x → Q x) → All P xs → All Q xs
All-mono P Q [] f h = tt
All-mono P Q (x ∷ xs) f h = (f x h.0, All-mono P Q xs f h.1)

-- A visited job keeps the marks and the order in agreement, and is done.
module _ (jobs : List JobNode) where
  pub start-IsTidy :
      (j : JobNode) (w : Walk)
      → mark_of j.id w.state ≡ unvisited
      → IsTidy jobs w
      → IsTidy jobs (start j w)
  start-IsTidy j w u t = record {
    listed_done = λ id h.
        let d = t.listed_done id h in
        elim (text_key.dec j.id id) [
          | yes e ↦ cc (u, d, e)
          | no e ↦ mark_of-other id j.id visiting w.state e ∙ d
        ];
    done_listed = λ id h. elim (text_key.dec j.id id) [
      | yes e ↦ cc (h, mark_of-same id j.id visiting w.state e)
      | no e ↦ t.done_listed id (sym (mark_of-other id j.id visiting w.state e) ∙ h)
    ];
    ordered = t.ordered;
    found = t.found;
  }

  pub finish-IsTidy :
      (j : JobNode) (w : Walk)
      → mark_of j.id w.state ≡ visiting
      → All (λ d. mark_of d w.state ≡ done) j.needs
      → find_job j.id jobs ≡ some j
      → IsTidy jobs w
      → IsTidy jobs (finish j w)
  finish-IsTidy j w m n f t = record {
    listed_done = λ id h. elim (text_key.dec j.id id) [
      | yes e ↦ mark_of-same id j.id done w.state e
      | no e ↦
          mark_of-other id j.id done w.state e ∙ t.listed_done id (listed-snoc_other id w.out j e h)
    ];
    done_listed = λ id h. elim (text_key.dec j.id id) [
      | yes e ↦ listed-snoc id w.out j (inl e)
      | no e ↦
          listed-snoc id w.out j
            (inr (t.done_listed id (sym (mark_of-other id j.id done w.state e) ∙ h)))
    ];
    ordered =
        IsOrdered-snoc [] w.out j t.ordered
          (All-mono (λ d. mark_of d w.state ≡ done) (λ d. listed d w.out ≡ true) j.needs
            t.done_listed n)
          (elim (Bool-cases (listed j.id w.out)) [
            | inl l ↦ cc (m, t.listed_done j.id l)
            | inr l ↦ l
          ]);
    found = All-snoc (λ k. find_job k.id jobs ≡ some k) w.out j t.found f;
  }
