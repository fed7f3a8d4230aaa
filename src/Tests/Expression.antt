-- ===== src/Tests/Expression.antt =====
-- The expression engine at concrete inputs, over the natural numbers.
use forgelet.Prelude.{
  ℕ, ◌≡◌, ◌≢◌, ◌↔◌, ◌+◌, refl, arith, Text, text, [], ◌∷◌, List, true, false, Bool, Option, some,
  none, is, text_key, ltb, ◌==◌, Text-discrete, lookup, insert, equal_fold, to_lower, lower_byte,
}
use forgelet.Expression.Errors.{ok}
use forgelet.Expression.Value.{Value, truthy, Float, pos, null, num, str, obj, field, no_fields}
use forgelet.Expression.Value.Equality.{loose_equal, compare}
use forgelet.Expression.Format.{digits, digits_from, index_of, placeholder, format_github}
use forgelet.Expression.Format.Template.{Piece, filled, format_github-render, render, plain, slot}
use forgelet.Expression.Env.{Env, with_context, lookup_context}
use forgelet.Expression.Parser.Print.{print}
use forgelet.Expression.Parser.RoundTrip.{parse_tokens-print}
use forgelet.Expression.Tokens.{eof}
use forgelet.Expression.Syntax.{
  or_op, binary, negate, call, arg, no_args, Node, ident, member, literal,
}
use forgelet.Expression.Functions.{Json, function_named, apply}
use forgelet.Expression.Eval.{eval}
use forgelet.Expression.Eval.Total.{eval-Known}
use forgelet.Expression.Eval.Stable.{eval-stable, respell}
use forgelet.Expression.Parser.{
  parse_tokens, done, out_of_fuel, parse_or, match, keyword, match_comparison, property,
}
use forgelet.Expression.Tokens.{Punct-discrete}
use forgelet.Expression.Lexer.{parse, tokens, origin}
use forgelet.Expression.Lexer.Fuel.{parse-ne-out_of_fuel, tokens-Fits, Fits}
use forgelet.Expression.Conditions.{evaluate_condition, interpolate}
use forgelet.Expression.Conditions.Template.{
  Part, verbatim, hole, source, expand, interpolate-source,
}
use forgelet.Expression.Glob.{match_segments}
use forgelet.Expression.Glob.Matching.{Matches, match_segments-Matches}

instance abbrev pub naturals : Float ℕ
naturals = record {
  zero = 0;
  one = 1;
  same = λ a b. a == b;
  below = λ a b. ltb a b;
  is_nan = λ a. false;
  is_inf = λ a. false;
  is_integral = λ a. true;
  format_int = λ a. (b'0' + a) ∷ [];
  format_float = λ a. [];
  parse_float = λ s. digits s;
  to_int = λ a. pos a;
}

instance abbrev pub no_json : Json ℕ
no_json = record { marshal = λ v. none; decode = λ s. none }

abbrev pushed : Env ℕ
pushed = record {
  contexts =
      (
        text "github",
        obj (field (text "ref") (str (text "main")) (field (text "n") (num 3) no_fields)),
      )
      ∷ [];
  hasher = none;
}

abbrev on_main : Text
on_main = text "github.ref == 'MAIN' && github.n >= 3"

parse-ne-out_of_fuel_example : parse {N = ℕ} on_main ≢ out_of_fuel
parse-ne-out_of_fuel_example = parse-ne-out_of_fuel ℕ on_main

on_main_holds : evaluate_condition pushed on_main ≡ ok true
unfolding evaluate_condition parse Text-discrete eval digits parse_or match keyword Punct-discrete
    match_comparison property function_named lookup apply truthy lookup_context loose_equal
    equal_fold compare
on_main_holds = refl

-- A condition that is no expression by itself passes between the parentheses.
unbalanced_holds :
    evaluate_condition
      (with_context (text "__jobstatus") (str (text "failure")) pushed)
      (text "false) || (true")
    ≡ ok true
unfolding evaluate_condition parse Text-discrete eval with_context parse_or match keyword
    Punct-discrete match_comparison function_named lookup apply truthy lookup_context insert
unbalanced_holds = refl

tokens-Fits_example : Fits 0 (0 + 37) (tokens {N = ℕ} 40 origin on_main)
tokens-Fits_example = tokens-Fits ℕ 40 origin on_main (ground arith)

abbrev greeting : List Piece
greeting = plain (text "{to} ") ∷ slot (text "0") ∷ []

abbrev ann : List (Value ℕ)
ann = str (text "Ann") ∷ []

slot_0 : placeholder (text "0") ann ≡ some (str (text "Ann"))
unfolding placeholder index_of digits digits_from
slot_0 = refl

format_github-render_example : format_github (render greeting) ann ≡ ok (filled ann greeting)
format_github-render_example =
    format_github-render ann greeting (tt, ((str (text "Ann"), slot_0), tt))

abbrev github : Value ℕ
github = obj (field (text "ref") (str (text "main")) (field (text "n") (num 3) no_fields))

abbrev branch : Node ℕ
branch = member (ident (text "github")) (literal (str (text "ref")))

pushed-github : lookup_context (text "github") pushed ≡ some github
unfolding lookup_context Text-discrete lookup to_lower
pushed-github = refl

eval-Known_example : (v : Value ℕ) × (eval pushed branch ≡ ok v)
eval-Known_example = eval-Known pushed branch ((github, pushed-github), tt)

pushed-needs : lookup_context (text "needs") pushed ≡ none
unfolding lookup_context Text-discrete lookup to_lower
pushed-needs = refl

branch_main : eval pushed branch ≡ ok (str (text "main"))
unfolding eval lookup_context Text-discrete lookup to_lower
branch_main = refl

lower_twice : (s : Text) → to_lower (to_lower s) ≡ to_lower s
unfolding to_lower lower_byte
lower_twice [] = refl
lower_twice (c ∷ s) = let ih = lower_twice s in ground arith

eval-stable_example :
    eval (with_context (text "needs") null pushed) (respell to_lower branch)
    ≡ ok (str (text "main"))
eval-stable_example =
    eval-stable to_lower lower_twice pushed (text "needs") null branch (str (text "main"))
      pushed-needs (unfold to_lower in λ e. cc) branch_main

abbrev title : List Part
title = verbatim (text "on ") ∷ hole (text " github.ref ") ∷ []

interpolate-source_example : interpolate pushed (source title) ≡ expand pushed title
interpolate-source_example = interpolate-source pushed title (refl, (refl, tt))

-- `path.Match` on patterns without special characters.
abbrev same_segment : Text → Text → Option Bool
same_segment p s = some (is p s)

match_segments-Matches_example :
    (match_segments same_segment (text "**" ∷ text "go" ∷ []) (text "a" ∷ text "go" ∷ [])
      ≡ some true)
    ↔ Matches same_segment (text "**" ∷ text "go" ∷ []) (text "a" ∷ text "go" ∷ [])
match_segments-Matches_example =
    match_segments-Matches same_segment (text "**" ∷ text "go" ∷ []) (text "a" ∷ text "go" ∷ [])

-- `!startsWith(github[0], 'v') || x`
abbrev sentence : Node ℕ
sentence =
    binary or_op
      (negate (
        call (text "startsWith") (
          arg (member (ident (text "github")) (literal (num 0)))
            (arg (literal (str (text "v"))) no_args))))
      (ident (text "x"))

no_keyword : (keyword {N = ℕ} (text "github") ≡ none) × (keyword {N = ℕ} (text "x") ≡ none)
unfolding keyword Text-discrete
no_keyword = (refl, refl)

no_keyword_call : keyword {N = ℕ} (text "startsWith") ≡ none
unfolding keyword Text-discrete
no_keyword_call = refl

parse_tokens-print_example : parse_tokens (print origin sentence (eof origin)) ≡ done sentence
parse_tokens-print_example =
    parse_tokens-print origin sentence
      ((no_keyword_call, (((no_keyword.0, tt), (tt, tt)))), no_keyword.1)
