-- ===== src/Expression/Conditions/Template.antt =====
-- `Interpolate` on a template in pieces: text without a dollar sign, and placeholders.
use forgelet.Prelude.{
  suc, ◌≡◌, refl, sym, ap, ◌∙◌, false, List, [], ◌∷◌, ◌++◌, Text, text, cut, cut-double, cut_prefix,
  trim_space, length, ◌==◌, arith, any, All,
}
use forgelet.Expression.Errors.{Outcome, ok, ◌>>=◌}
use forgelet.Expression.Value.{Float, display}
use forgelet.Expression.Env.{Env}
use forgelet.Expression.Functions.{Json}
use forgelet.Expression.Format.{emit, emit-emit, emit_nothing}
use forgelet.Expression.Conditions.{eval_text, interpolate_from, interpolate}

-- A piece of a template: a text to stand as it is, or the inside of a placeholder.
pub data Part : Type 0 where
  verbatim : Text → Part
  hole : Text → Part

-- The template in the source's notation; 125 is the closing brace.
abbrev pub source : List Part → Text
source [] = []
source (verbatim t ∷ ps) = t ++ source ps
source (hole inner ∷ ps) = text "${{" ++ (inner ++ 125 ∷ 125 ∷ source ps)

-- No dollar sign in a plain piece, no closing brace in a placeholder.
abbrev pub Clean : Part → Type 0
Clean (verbatim t) = any (λ c. c == b'$') t ≡ false
Clean (hole inner) = any (λ c. c == 125) inner ≡ false

module _ {N : Type 0} ⦃float : Float N⦄ ⦃json : Json N⦄ (env : Env N) where
  -- What the pieces stand for, from the left: the first placeholder that fails is the error.
  unfoldable pub expand : List Part → Outcome Text
  expand [] = ok []
  expand (verbatim t ∷ ps) = emit t (expand ps)
  expand (hole inner ∷ ps) = eval_text env (trim_space inner) >>= λ v. emit (display v) (expand ps)

  skip_past :
      (t rest : Text)
      → interpolate_from env (suc (suc (length t))) (t ++ 125 ∷ 125 ∷ rest)
        ≡ interpolate_from env 0 rest
  unfolding interpolate_from
  skip_past [] rest = refl
  skip_past (c ∷ t) rest = skip_past t rest

  plain-interpolate :
      (t rest : Text)
      → any (λ c. c == b'$') t ≡ false
      → interpolate_from env 0 (t ++ rest) ≡ emit t (interpolate_from env 0 rest)
  unfolding interpolate_from cut_prefix
  plain-interpolate [] rest h = sym (emit_nothing (interpolate_from env 0 rest))
  plain-interpolate (c ∷ t) rest h =
      let ih = plain-interpolate t rest in
      let two = emit-emit (c ∷ []) t (interpolate_from env 0 rest) in ground (arith, ih, two)

  hole-interpolate :
      (inner rest : Text)
      → any (λ c. c == 125) inner ≡ false
      → interpolate_from env 0 (text "${{" ++ (inner ++ 125 ∷ 125 ∷ rest))
        ≡ (eval_text env (trim_space inner) >>= λ v. emit (display v) (interpolate_from env 0 rest))
  unfolding interpolate_from cut_prefix cut
  hole-interpolate inner rest h =
      rw (cut-double 125 inner rest h, interpolate_from) (rw (skip_past inner rest))

  -- A template whose plain pieces hold no dollar sign and whose placeholders hold no closing brace
  -- expands piece by piece: every placeholder becomes the display of its value, without the spaces
  -- around it, and the first one that fails is the error of the whole.
  pub interpolate-source : (ps : List Part) → All Clean ps → interpolate env (source ps) ≡ expand ps
  unfolding interpolate expand
  interpolate-source [] h = refl
  interpolate-source (verbatim t ∷ ps) h =
      plain-interpolate t (source ps) h.0 ∙ ap (emit t) (interpolate-source ps h.1)
  interpolate-source (hole inner ∷ ps) h =
      hole-interpolate inner (source ps) h.0 ∙ (rw (sym (interpolate-source ps h.1)))
