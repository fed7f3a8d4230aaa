-- ===== src/Expression/Conditions.antt =====
-- internal/workflow/expression/conditions.go, interpolate.go, and `Eval` of eval.go: the ways into
-- the engine.
pub mod Template
use forgelet.Prelude.{
  ℕ, suc, zero, ◌+◌, ◌≡◌, ◌≢◌, refl, Bool, true, false, not, ◌&&◌, ◌||◌, Option, none, some, List,
  [], ◌∷◌, ◌++◌, Text, text, cut, cut_prefix, contains_text, trim_space, to_lower, length, any,
  if◌then◌else◌,
}
use forgelet.Expression.Errors.{Outcome, EngineError, ok, err, ◌>>=◌}
use forgelet.Expression.Value.{Value, Float, display, truthy}
use forgelet.Expression.Syntax.{Node}
use forgelet.Expression.Env.{Env}
use forgelet.Expression.Functions.{Json}
use forgelet.Expression.Eval.{eval}
use forgelet.Expression.Format.{emit}
use forgelet.Expression.Parser.{Parsed, done, failed, out_of_fuel}
use forgelet.Expression.Lexer.{parse}
use forgelet.Expression.Lexer.Fuel.{parse-ne-out_of_fuel}

-- The result of a parser that did not run out of fuel.
unfoldable pub outcome {ℓ} : {A : Type ℓ} (r : Parsed A) → r ≢ out_of_fuel → Outcome A
outcome (done a) h = ok a
outcome (failed at) h = err (EngineError.parse_error at)
outcome out_of_fuel h = absurd (h refl)

-- The names of the functions that ask for the state of the job, with the parenthesis.
abbrev pub status_calls : List Text
status_calls = text "success(" ∷ text "failure(" ∷ text "cancelled(" ∷ text "always(" ∷ []

unfoldable pub mentions_status_function : Text → Bool
unfolding contains_text to_lower
mentions_status_function cond = any (λ part. contains_text part (to_lower cond)) status_calls

-- The condition asks for the state of the jobs itself, by the looks of its text.
abbrev pub asks_for_status : Text → Bool
asks_for_status cond =
    mentions_status_function cond
    || contains_text (text "needs.") (to_lower cond)
    || contains_text (text "job.") (to_lower cond)

-- `"success() && (" + cond + ")"`
abbrev pub guarded : Text → Text
guarded cond = text "success() && (" ++ cond ++ text ")"

unfoldable pub has_expression : Text → Bool
unfolding contains_text
has_expression s = contains_text (text "${{") s

-- `tpl[3:]`
abbrev pub behind_opening : Text → Text
behind_opening (a ∷ b ∷ c ∷ s) = s
behind_opening s = []

module _ {N : Type 0} ⦃float : Float N⦄ ⦃json : Json N⦄ (env : Env N) where
  -- `Eval`
  unfoldable pub eval_text : Text → Outcome (Value N)
  unfolding parse outcome eval
  eval_text s = outcome (parse s) (parse-ne-out_of_fuel N s) >>= λ ast. eval env ast

  -- The loop of `Interpolate`: the number counts the bytes that the index has skipped ahead.
  unfoldable pub interpolate_from : ℕ → Text → Outcome Text
  unfolding eval_text cut cut_prefix trim_space
  interpolate_from skip [] = ok []
  interpolate_from (suc skip) (c ∷ s) = interpolate_from skip s
  interpolate_from zero (c ∷ s) = elim (cut_prefix (text "${{") (c ∷ s)) [
    | none ↦ emit (c ∷ []) (interpolate_from 0 s)
    | some opened ↦ elim (cut (text "}}") (c ∷ s)) [
      | none ↦ err EngineError.unterminated
      | some (before, after) ↦ eval_text (trim_space (behind_opening before)) >>= λ v.
          emit (display v) (interpolate_from (suc (length before)) s)
    ]
  ]

  unfoldable pub interpolate : Text → Outcome Text
  unfolding interpolate_from
  interpolate tpl = interpolate_from 0 tpl

  abbrev pub truth : Text → Outcome Bool
  truth cond = eval_text cond >>= λ v. ok (truthy v)

  abbrev pub rendered_truth : Text → Outcome Bool
  rendered_truth [] = ok true
  rendered_truth (c ∷ cond) = truth (c ∷ cond)

  abbrev pub evaluate_trimmed : Text → Outcome Bool
  evaluate_trimmed [] = ok true
  evaluate_trimmed (c ∷ cond) =
      if has_expression (c ∷ cond)
      then (interpolate (c ∷ cond) >>= λ rendered. rendered_truth (trim_space rendered))
      else (if asks_for_status (c ∷ cond) then truth (c ∷ cond) else truth (guarded (c ∷ cond)))

  unfoldable pub evaluate_condition : Text → Outcome Bool
  unfolding has_expression mentions_status_function interpolate eval_text trim_space
  evaluate_condition raw = evaluate_trimmed (trim_space raw)
