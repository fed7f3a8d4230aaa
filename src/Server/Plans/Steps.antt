-- ===== src/Server/Plans/Steps.antt =====
-- What the steps of a plan are to the compiled steps.
use mathlib.Core.Path.{subst}
use forgelet.Prelude.{
  ℕ, suc, true, false, Option, none, some, List, [], ◌∷◌, ◌++◌, Text, text, text_key, Map, is_empty,
  has_prefix, ◌⊎◌, inl, inr, ◌≡◌, refl, Bool-cases, Option-cases,
}
use forgelet.Compiler.Compile.{Step}
use forgelet.Executor.Plan.{PlanStep, BuiltinStep, JsStep}
use forgelet.Provider.Action.{CompositeActionStep, ActionMeta, ActionRef}
use forgelet.Server.Plans.{fill_script, expand_composite, raw_ref, js_step, raw_steps}
use forgelet.Compiler.Builtin.{BuiltinCall}
use forgelet.Server.Names.{st_display_name}
use forgelet.Server.Plans.Entries.{NoRefs, plain_inputs}

abbrev pub BuiltinPlain : Option BuiltinStep → Type 0
BuiltinPlain none = Unit
BuiltinPlain (some b) = NoRefs b.inputs

abbrev pub JsPlain : Option JsStep → Type 0
JsPlain none = Unit
JsPlain (some j) = NoRefs j.inputs

-- The step of the plan has the name, the condition and the tolerance of the compiled one, and none
-- of its inputs is a reference to a secret.
abbrev pub Keeps : Step → PlanStep → Type 0
Keeps st ps =
    (st_display_name st ≡ some ps.id)
    × (ps.name ≡ st.name)
    × (ps.condition ≡ st.condition)
    × (ps.continue_on_error ≡ st.continue_on_error)
    × BuiltinPlain ps.builtin
    × JsPlain ps.js

-- What the inner steps of a composite action become, from the one with the index `i`: steps without
-- a condition, each with its script or its action, where there is one.
abbrev pub Inner : (ℕ → Text) → Map Text Text → Text → ℕ → CompositeActionStep → PlanStep → Type 0
Inner decimal outer id i cs ps =
    (ps.id ≡ id ++ text "-" ++ decimal i)
    × (ps.name ≡ cs.name)
    × (ps.condition ≡ [])
    × (ps.continue_on_error ≡ false)
    × (ps.builtin ≡ none)
    × (((is_empty cs.run ≡ false) × (ps.js ≡ none) × (ps.run.script ≡ fill_script outer cs.run))
        ⊎ ((is_empty cs.run ≡ true)
            × (is_empty cs.uses ≡ false)
            × ((j : JsStep) × (ps.js ≡ some j) × (j.repo ≡ cs.uses)))
        ⊎ ((is_empty cs.run ≡ true)
            × (is_empty cs.uses ≡ true)
            × (ps.js ≡ none)
            × (ps.run.script ≡ [])))

abbrev pub Expanded :
    (ℕ → Text) → Map Text Text → Text → ℕ → List CompositeActionStep → List PlanStep → Type 0
Expanded decimal outer id i [] [] = Unit
Expanded decimal outer id i [] (ps ∷ pss) = ⊥
Expanded decimal outer id i (cs ∷ css) [] = ⊥
Expanded decimal outer id i (cs ∷ css) (ps ∷ pss) =
    Inner decimal outer id i cs ps × Expanded decimal outer id (suc i) css pss

expand_composite-Expanded :
    (decimal : ℕ → Text) (steps : List CompositeActionStep) (outer : Map Text Text) (id : Text)
    (i : ℕ)
    → Expanded decimal outer id i steps (expand_composite decimal steps outer id i)
unfolding expand_composite
expand_composite-Expanded decimal [] outer id i = tt
expand_composite-Expanded decimal (cs ∷ steps) outer id i =
    let rest = expand_composite-Expanded decimal steps outer id (suc i) in
    elim (Bool-cases (is_empty cs.run)) [
      | inr e ↦
          rw (expand_composite, e) ((refl, refl, refl, refl, refl, inl (refl, refl, refl)), rest)
      | inl e ↦ elim (Bool-cases (is_empty cs.uses)) [
        | inr f ↦
            rw (expand_composite, e, f)
              ((refl, refl, refl, refl, refl, inr (inl (refl, refl, (_, refl, refl)))), rest)
        | inl f ↦
            rw (expand_composite, e, f)
              ((refl, refl, refl, refl, refl, inr (inr (refl, refl, refl, refl))), rest)
      ]
    ]

module _ (decimal : ℕ → Text) (fetch_action : Option (ActionRef → Option ActionMeta)) where
  abbrev pub used : Step → ActionRef
  used st = raw_ref decimal fetch_action st.raw_uses

  -- What an action says that it runs on, and its inner steps, if it can be fetched.
  abbrev pub runs_on : ActionRef → Text
  runs_on r = elim fetch_action [
    | none ↦ []
    | some fetch ↦ elim (fetch r) [ none ↦ [] | some meta ↦ meta.runs_using ]
  ]

  abbrev pub inner_steps : ActionRef → List CompositeActionStep
  inner_steps r = elim fetch_action [
    | none ↦ []
    | some fetch ↦ elim (fetch r) [ none ↦ [] | some meta ↦ meta.steps ]
  ]

  abbrev pub IsBuiltin : Step → PlanStep → Type 0
  IsBuiltin st ps =
      (call : BuiltinCall) × (b : BuiltinStep) × (st.uses ≡ some call)
      × (ps.builtin ≡ some b)
      × (b.action ≡ call.action)
      × (b.version ≡ call.version)
      × (b.inputs ≡ plain_inputs call.inputs)
      × (ps.js ≡ none)

  abbrev pub IsAction : Step → PlanStep → Type 0
  IsAction st ps =
      (j : JsStep) × (ps.js ≡ some j)
      × (ps.builtin ≡ none)
      × (j.repo ≡ (used st).owner ++ text "/" ++ (used st).repo)
      × (j.ref ≡ (used st).ref)
      × (j.path ≡ (used st).path)
      × (j.inputs ≡ plain_inputs st.raw_with)

  abbrev pub IsScript : Step → PlanStep → Type 0
  IsScript st ps =
      (ps.run.script ≡ st.run) × (ps.run.env ≡ st.env) × (ps.builtin ≡ none) × (ps.js ≡ none)

  -- The steps of the plan for one step: a builtin, an action of a repository, the inner steps of
  -- a composite action, or a script.
  abbrev pub Plans : Step → List PlanStep → Type 0
  Plans st mine =
      ((ps : PlanStep) × (mine ≡ ps ∷ []) × Keeps st ps × IsBuiltin st ps)
      ⊎ ((st.uses ≡ none)
          × (is_empty st.raw_uses ≡ false)
          × (((has_prefix (text "composite") (runs_on (used st)) ≡ false)
                × ((ps : PlanStep) × (mine ≡ ps ∷ []) × Keeps st ps × IsAction st ps))
              ⊎ ((has_prefix (text "composite") (runs_on (used st)) ≡ true)
                  × ((id : Text) × (st_display_name st ≡ some id)
                      × NoRefs (plain_inputs st.raw_with)
                      × Expanded decimal (plain_inputs st.raw_with) id 0 (inner_steps (used st))
                          mine))))
      ⊎ ((st.uses ≡ none)
          × (is_empty st.raw_uses ≡ true)
          × ((ps : PlanStep) × (mine ≡ ps ∷ []) × Keeps st ps × IsScript st ps))

  -- What `raw_steps` makes of a step with the given name, condition and tolerance.
  Raw : ActionRef → PlanStep → Map Text Text → List PlanStep → Type 0
  Raw r ps inputs mine =
      ((has_prefix (text "composite") (runs_on r) ≡ false)
        × ((main : Text) × (mine
              ≡ record ps { js = some (js_step decimal fetch_action r main inputs) } ∷ [])))
      ⊎ ((has_prefix (text "composite") (runs_on r) ≡ true)
          × Expanded decimal inputs ps.id 0 (inner_steps r) mine)

  raw_steps-Raw :
      (r : ActionRef) (ps : PlanStep) (inputs : Map Text Text)
      → Raw r ps inputs (raw_steps decimal fetch_action r ps inputs)
  unfolding raw_steps Raw has_prefix
  raw_steps-Raw r ps inputs = elim (Option-cases fetch_action) [
    | inl f ↦ rw (raw_steps, f) (inl (refl, ([], refl)))
    | inr (fetch, f) ↦ elim (Option-cases (fetch r)) [
      | inl g ↦ rw (raw_steps, f, g) (inl (refl, ([], refl)))
      | inr (meta, g) ↦ elim (Bool-cases (has_prefix (text "composite") meta.runs_using)) [
        | inl h ↦
            rw (raw_steps, f, g, h)
              (inr (refl, expand_composite-Expanded decimal meta.steps inputs ps.id 0))
        | inr h ↦ elim (Bool-cases (has_prefix (text "node") meta.runs_using)) [
          | inl k ↦ rw (raw_steps, f, g, h, k) (inl (refl, (meta.main, refl)))
          | inr k ↦ rw (raw_steps, f, g, h, k) (inl (refl, ([], refl)))
        ]
      ]
    ]
  ]

  -- The group of a step that uses an action.
  pub raw_steps-Plans :
      (st : Step) (ps : PlanStep) (inputs : Map Text Text)
      → st.uses ≡ none
      → is_empty st.raw_uses ≡ false
      → inputs ≡ plain_inputs st.raw_with
      → NoRefs inputs
      → Keeps st ps
      → ps.builtin ≡ none
      → Plans st (raw_steps decimal fetch_action (used st) ps inputs)
  unfolding Raw
  raw_steps-Plans st ps inputs u n q p (d, a, c, t, b, j) bn =
      elim (raw_steps-Raw (used st) ps inputs) [
        | inl (h, (main, e)) ↦
            inr
              (inl (u, n, inl (h, (_, e, (d, a, c, t, b, p), (_, refl, bn, refl, refl, refl, q)))))
        | inr (h, x) ↦ inr (
            inl (
              u,
              n,
              inr (
                h,
                (
                  ps.id,
                  d,
                  subst NoRefs q p,
                  subst
                      (λ m.
                        Expanded decimal m ps.id 0 (inner_steps (used st))
                          (raw_steps decimal fetch_action (used st) ps inputs))
                      q x,
                ),
              ),
            ))
      ]
