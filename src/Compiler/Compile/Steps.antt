-- ===== src/Compiler/Compile/Steps.antt =====
-- What a step is compiled to.
use mathlib.Core.Path.{subst}
use forgelet.Prelude.{
  Pairwise, ℕ, suc, true, false, none, some, List, [], ◌∷◌, Text, text, text_key, Map, lookup,
  lookup_or, insert, is, any, is_empty, trim_space, cut, contains_text, ◌⊎◌, inl, inr, ◌≡◌, refl,
  ap, ◌∙◌, All, Bool-cases, Option-cases, Result-cases, inl-injective, if_pos, if_neg,
}
use forgelet.Syntax.Ast.{StepNode}
use forgelet.Compiler.Builtin.{
  BuiltinCall, Warning, registry, check_action, parse_uses, keep_inputs, compile_builtin,
}
use forgelet.Compiler.Compile.{Step, bare_step, raw_step, uses_result, compile_step, compile_steps}

-- A call of an action of the registry, with inputs that it supports.
abbrev pub IsBuiltin : BuiltinCall → Type 0
IsBuiltin call =
    (supported : List Text) × (lookup call.action registry ≡ some supported)
    × (is_empty call.version ≡ false)
    × All (λ kv. any (λ s. is s kv.0) supported ≡ true) call.inputs

-- The action of the compiled step: a builtin, some other action by its name, or a command.
abbrev pub HasAction : StepNode → Step → Type 0
HasAction st s =
    ((call : BuiltinCall) × (s.uses ≡ some call)
      × IsBuiltin call
      × (s.run ≡ [])
      × (s.raw_uses ≡ []))
    ⊎ (s.uses ≡ none) × (s.run ≡ []) × (s.raw_uses ≡ st.uses) × (is_empty st.uses ≡ false)
    ⊎ (s.uses ≡ none)
      × (s.run ≡ st.run)
      × (s.raw_uses ≡ [])
      × (is_empty (trim_space st.run) ≡ false)

abbrev pub Compiles : StepNode → Step → Type 0
Compiles st s =
    (s.name ≡ st.name)
    × (s.condition ≡ st.condition)
    × (s.continue_on_error ≡ st.continue_on_error)
    × (s.env ≡ st.env)
    × HasAction st s

insert-All :
    (P : Text → Type 0) (k v : Text) (m : Map Text Text)
    → P k
    → All (λ kv. P kv.0) m
    → All (λ kv. P kv.0) (insert k v m)
unfolding insert
insert-All P k v [] p h = (p, tt)
insert-All P k v ((j, w) ∷ m) p h = elim (text_key.dec j k) [
  | yes e ↦ rw (if_pos (text_key.dec j k) e) (p, h.1)
  | no e ↦ rw (if_neg (text_key.dec j k) e) (h.0, insert-All P k v m p h.1)
]

module _ (quote : Text → Text) (names : List Text) where
  keep_inputs-supported :
      (job_id : Text) (idx : ℕ) (action : Text) (supported : List Text)
      (given inputs : Map Text Text) (warn : Warning)
      → All (λ kv. any (λ s. is s kv.0) supported ≡ true) inputs
      → All
          (λ kv. any (λ s. is s kv.0) supported ≡ true)
          (keep_inputs quote names job_id idx action supported given inputs warn).0
  unfolding keep_inputs
  keep_inputs-supported job_id idx action supported [] inputs warn h = h
  keep_inputs-supported job_id idx action supported ((k, v) ∷ given) inputs warn h =
      elim (Bool-cases (any (λ s. is s k) supported)) [
        | inl e ↦ rw e (
            keep_inputs-supported job_id idx action supported given (insert k v inputs) warn
              (insert-All _ k v inputs e h))
        | inr e ↦ rw e (keep_inputs-supported job_id idx action supported given inputs _ h)
      ]

  check_action-listed :
      (uses action version a v : Text)
      → check_action quote names uses a v ≡ inl (action, version)
      → ((supported : List Text) × (lookup a registry ≡ some supported))
        × (a ≡ action)
        × (v ≡ version)
  unfolding check_action
  check_action-listed uses action version a v h = elim (Option-cases (lookup a registry)) [
    | inl e ↦ let k = (rw (check_action, e) at h) in cc
    | inr (l, e) ↦
        let k = inl-injective (a, v) (action, version) (rw (check_action, e) at h) in
        ((l, e), ap (λ p. p.0) k, ap (λ p. p.1) k)
  ]

  parse_uses-listed :
      (uses action version : Text)
      → parse_uses quote names uses ≡ inl (action, version)
      → ((supported : List Text) × (lookup action registry ≡ some supported))
        × (is_empty version ≡ false)
  unfolding parse_uses check_action
  parse_uses-listed uses action version h = elim (Option-cases (cut (text "@") (trim_space uses))) [
    | inl e ↦ let k = (rw (parse_uses, e) at h) in cc
    | inr ((a, v), e) ↦
        let k = (rw (parse_uses, e) at h) in
        elim (Bool-cases (is_empty a)) [
          | inl b ↦ let d = (rw b at k) in cc
          | inr b ↦ elim (Bool-cases (is_empty v)) [
            | inl c ↦ let d = (rw (b, c) at k) in cc
            | inr c ↦
                let ((l, f), ea, ev) =
                  check_action-listed uses action version a v (rw (b, c) at k) in
                ((l, rw ea at f), rw ev at c)
          ]
        ]
  ]

  compile_builtin-IsBuiltin :
      (job_id : Text) (idx : ℕ) (st : StepNode) (call : BuiltinCall) (warn : Warning)
      → compile_builtin quote names job_id idx st ≡ inl (call, warn)
      → IsBuiltin call
  unfolding compile_builtin
  compile_builtin-IsBuiltin job_id idx st call warn h =
      elim (Result-cases (parse_uses quote names st.uses)) [
        | inr (e, p) ↦ let k = (rw (compile_builtin, p) at h) in cc
        | inl ((action, version), p) ↦
            let ((l, f), v) = parse_uses-listed st.uses action version p in
            let k = ap (λ p. p.0) (inl-injective _ (call, warn) (rw (compile_builtin, p) at h)) in
            let q : lookup_or [] action registry ≡ l = rw (lookup_or, f) refl in
            let kept =
              keep_inputs quote names job_id idx action (lookup_or [] action registry) st.inputs []
                (record { job = []; step = 0; msg = [] }) in
            subst IsBuiltin k (
              l,
              f,
              v,
              subst (λ t. All (λ kv. any (λ s. is s kv.0) t ≡ true) kept.0) q
                  (keep_inputs-supported job_id idx action (lookup_or [] action registry) st.inputs
                    [] (record { job = []; step = 0; msg = [] }) tt),
            )
      ]

  raw_step-kept :
      (job_id : Text) (i : ℕ) (st : StepNode) (e : Text) (s : Step)
      → raw_step quote names job_id i st e ≡ inl s
      → record (bare_step st) { raw_uses = st.uses; raw_with = st.inputs } ≡ s
  unfolding raw_step
  raw_step-kept job_id i st e s h = elim (Bool-cases (contains_text (text "did you mean") e)) [
    | inl c ↦ let k = (rw (raw_step, c) at h) in cc
    | inr c ↦ elim (Bool-cases (contains_text (text "not a forgelet builtin") e)) [
      | inl d ↦ inl-injective _ s (rw (raw_step, c, d) at h)
      | inr d ↦ let k = (rw (raw_step, c, d) at h) in cc
    ]
  ]

  uses_step-Compiles :
      (job_id : Text) (i : ℕ) (st : StepNode) (ws : List Warning) (s : Step)
      → is_empty st.uses ≡ false
      → uses_result quote names job_id i st (compile_builtin quote names job_id i st) ≡ inl (ws, s)
      → Compiles st s
  unfolding uses_result
  uses_step-Compiles job_id i st ws s e h =
      elim (Result-cases (compile_builtin quote names job_id i st)) [
        | inl ((call, warn), p) ↦
            let b = compile_builtin-IsBuiltin job_id i st call warn p in
            let k = ap (λ p. p.1) (inl-injective _ (ws, s) (rw (p, uses_result) at h)) in
            subst (Compiles st) k (refl, refl, refl, refl, inl (call, refl, b, refl, refl))
        | inr (d, p) ↦ elim (Result-cases (raw_step quote names job_id i st d)) [
          | inr (c, q) ↦ let k = (rw (p, uses_result, q) at h) in cc
          | inl (r, q) ↦
              let k = ap (λ p. p.1) (inl-injective _ (ws, s) (rw (p, uses_result, q) at h)) in
              let kept = raw_step-kept job_id i st d r q in
              subst (Compiles st) (kept ∙ k)
                (refl, refl, refl, refl, inr (inl (refl, refl, refl, e)))
        ]
      ]

  pub compile_step-Compiles :
      (job_id : Text) (i : ℕ) (st : StepNode) (ws : List Warning) (s : Step)
      → compile_step quote names job_id i st ≡ inl (ws, s)
      → Compiles st s
  unfolding compile_step
  compile_step-Compiles job_id i st ws s h = elim (Bool-cases (is_empty st.uses)) [
    | inl e ↦ elim (Bool-cases (is_empty (trim_space st.run))) [
      | inl r ↦ let k = (rw (compile_step, e, r) at h) in cc
      | inr r ↦
          let k = ap (λ p. p.1) (inl-injective _ (ws, s) (rw (compile_step, e, r) at h)) in
          subst (Compiles st) k (refl, refl, refl, refl, inr (inr (refl, refl, refl, r)))
    ]
    | inr e ↦
        uses_step-Compiles job_id i st ws s e (elim (Bool-cases (is_empty (trim_space st.run))) [
          | inl r ↦ rw (compile_step, e, r) at h
          | inr r ↦ rw (compile_step, e, r) at h
        ])
  ]

  pub compile_steps-Compiles :
      (job_id : Text) (i : ℕ) (sts : List StepNode) (ws : List Warning) (ss : List Step)
      → compile_steps quote names job_id i sts ≡ inl (ws, ss)
      → Pairwise Compiles sts ss
  unfolding compile_steps
  compile_steps-Compiles job_id i [] ws ss h =
      let k = ap (λ p. p.1) (inl-injective _ (ws, ss) h) in subst (Pairwise Compiles []) k tt
  compile_steps-Compiles job_id i (st ∷ sts) ws ss h =
      elim (Result-cases (compile_step quote names job_id i st)) [
        | inr (e, p) ↦ let k = (rw (compile_steps, p) at h) in cc
        | inl ((vs, s), p) ↦ elim (Result-cases (compile_steps quote names job_id (suc i) sts)) [
          | inr (e, q) ↦ let k = (rw (compile_steps, p, q) at h) in cc
          | inl ((us, rest), q) ↦
              let k = ap (λ p. p.1) (inl-injective _ (ws, ss) (rw (compile_steps, p, q) at h)) in
              subst (Pairwise Compiles (st ∷ sts)) k (
                compile_step-Compiles job_id i st vs s p,
                compile_steps-Compiles job_id (suc i) sts us rest q,
              )
        ]
      ]
