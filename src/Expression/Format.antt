-- ===== src/Expression/Format.antt =====
-- internal/workflow/expression/functions.go: `formatGitHub`.
pub mod Template
use mathlib.Core.List.{append_assoc}
use forgelet.Prelude.{
  ◌≡◌, refl, sym, ap, ℕ, zero, suc, ◌+◌, ◌-◌, ◌*◌, Bool, false, ◌&&◌, Option, none, some, List, [],
  ◌∷◌, ◌++◌, Text, text, cut, length, leb, ◌==◌, if◌then◌else◌,
}
use forgelet.Expression.Errors.{Outcome, EngineError, ok, err, ◌>>=◌}
use forgelet.Expression.Value.{Value, Float, display}

-- The digits of a number, from the left.
unfoldable pub digits_from : ℕ → Text → Option ℕ
digits_from acc [] = some acc
digits_from acc (c ∷ s) =
    let rest = digits_from (acc * 10 + (c - b'0')) s in
    if leb b'0' c && leb c b'9' then rest else none

unfoldable pub digits : Text → Option ℕ
unfolding digits_from
digits [] = none
digits (c ∷ s) = digits_from 0 (c ∷ s)

abbrev only_zero : Option ℕ → Option ℕ
only_zero (some zero) = some 0
only_zero _ = none

-- `strconv.Atoi`, where a negative number counts as an error: an index below 0 is one too.
unfoldable pub index_of : Text → Option ℕ
unfolding digits
index_of [] = none
index_of (c ∷ s) =
    if c == b'+' then digits s else (if c == b'-' then only_zero (digits s) else digits (c ∷ s))

abbrev get_elem? {ℓ} : {A : Type ℓ} → List A → ℕ → Option A
get_elem? [] i = none
get_elem? (x ∷ xs) zero = some x
get_elem? (x ∷ xs) (suc i) = get_elem? xs i

-- The text begins with the byte.
unfoldable pub begins : ℕ → Text → Bool
begins b [] = false
begins b (c ∷ s) = c == b

abbrev pub emit : Text → Outcome Text → Outcome Text
emit t r = r >>= λ s. ok (t ++ s)

pub emit-emit : (s t : Text) (r : Outcome Text) → emit s (emit t r) ≡ emit (s ++ t) r
emit-emit s t (ok u) = ap ok (sym (append_assoc s t u))
emit-emit s t (err e) = refl

pub emit_nothing : (r : Outcome Text) → emit [] r ≡ r
emit_nothing (ok s) = refl
emit_nothing (err e) = refl

module _ {N : Type 0} ⦃float : Float N⦄ where
  -- The value that the text between the braces names.
  unfoldable pub placeholder : Text → List (Value N) → Option (Value N)
  unfolding index_of
  placeholder body args = elim (index_of body) [ none ↦ none | some i ↦ get_elem? args i ]

  -- The loop over the template: the number counts the bytes that the index has skipped ahead.
  unfoldable pub format_from : ℕ → List (Value N) → Text → Outcome Text
  unfolding begins placeholder
  format_from skip args [] = ok []
  format_from (suc skip) args (c ∷ s) = format_from skip args s
  format_from zero args (c ∷ s) =
      let next = format_from 0 args s in
      let escaped = emit (c ∷ []) (format_from 1 args s) in
      let filled : Outcome Text = elim (cut (text "}") s) [
        | none ↦ err EngineError.eval_error
        | some (body, after) ↦ elim (placeholder body args) [
          | none ↦ err EngineError.eval_error
          | some v ↦ emit (display v) (format_from (suc (length body)) args s)
        ]
      ] in
      if c == b'{'
      then (if begins b'{' s then escaped else filled)
      else (if c == b'}'
          then (if begins b'}' s then escaped else err EngineError.eval_error)
          else emit (c ∷ []) next)

  unfoldable pub format_github : Text → List (Value N) → Outcome Text
  unfolding format_from
  format_github tpl args = format_from 0 args tpl
