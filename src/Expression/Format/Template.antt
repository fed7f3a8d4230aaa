-- ===== src/Expression/Format/Template.antt =====
-- `format` on a template in pieces: text with its braces doubled, and placeholders.
use forgelet.Prelude.{
  ℕ, suc, ◌+◌, ◌-◌, ◌*◌, ◌≡◌, refl, sym, Bool, false, ◌||◌, none, some, List, [], ◌∷◌, ◌++◌, Text,
  text, cut, cut_prefix, length, ◌==◌, if◌then◌else◌, arith, any, All, Bool-cases, Option-cases,
  inl, inr,
}
use forgelet.Expression.Errors.{ok}
use forgelet.Expression.Value.{Value, Float, display}
use forgelet.Expression.Format.{
  digits_from, digits, index_of, begins, emit, emit-emit, emit_nothing, placeholder, format_from,
  format_github,
}

-- A piece of a template: a text to stand as it is, or what stands between the braces of a
-- placeholder.
pub data Piece : Type 0 where
  plain : Text → Piece
  slot : Text → Piece

abbrev is_brace : ℕ → Bool
is_brace c = c == b'{' || c == b'}'

unfoldable pub double_braces : Text → Text
double_braces [] = []
double_braces (c ∷ t) = let rest = double_braces t in if is_brace c then c ∷ c ∷ rest else c ∷ rest

unfoldable pub render : List Piece → Text
unfolding double_braces
render [] = []
render (plain t ∷ ps) = double_braces t ++ render ps
render (slot body ∷ ps) = b'{' ∷ (body ++ b'}' ∷ render ps)

digits_from-braces :
    (acc : ℕ) (s : Text) (i : ℕ) → digits_from acc s ≡ some i → any is_brace s ≡ false
unfolding digits_from
digits_from-braces acc [] i h = refl
digits_from-braces acc (c ∷ s) i h = ground (arith, digits_from-braces (acc * 10 + (c - b'0')) s i)

digits-braces : (s : Text) (i : ℕ) → digits s ≡ some i → any is_brace s ≡ false
unfolding digits
digits-braces [] i h = cc
digits-braces (c ∷ s) i h = digits_from-braces 0 (c ∷ s) i h

-- An index holds no brace.
index_of-braces : (s : Text) (i : ℕ) → index_of s ≡ some i → any is_brace s ≡ false
unfolding index_of
index_of-braces [] i h = cc
index_of-braces (c ∷ s) i h =
    ground (arith, digits-braces s i, digits-braces s 0, digits-braces (c ∷ s) i)

cut-brace :
    (body rest : Text)
    → any is_brace body ≡ false
    → cut (text "}") (body ++ b'}' ∷ rest) ≡ some (body, rest)
unfolding cut cut_prefix
cut-brace [] rest h = refl
cut-brace (c ∷ body) rest h = ground (arith, cut-brace body rest)

begins-brace :
    (body rest : Text) → any is_brace body ≡ false → begins b'{' (body ++ b'}' ∷ rest) ≡ false
unfolding begins
begins-brace [] rest h = refl
begins-brace (c ∷ body) rest h = ground arith

module _ {N : Type 0} ⦃float : Float N⦄ (args : List (Value N)) where
  skip_past :
      (b : ℕ) (t rest : Text)
      → format_from (suc (length t)) args (t ++ b ∷ rest) ≡ format_from 0 args rest
  unfolding format_from
  skip_past b [] rest = refl
  skip_past b (c ∷ t) rest = skip_past b t rest

  double_braces-format :
      (t rest : Text)
      → format_from 0 args (double_braces t ++ rest) ≡ emit t (format_from 0 args rest)
  unfolding double_braces format_from begins
  double_braces-format [] rest = sym (emit_nothing (format_from 0 args rest))
  double_braces-format (c ∷ t) rest = elim (Bool-cases (is_brace c)) [
    | inl brace ↦
        let ih = double_braces-format t rest in
        let two = emit-emit (c ∷ []) t (format_from 0 args rest) in
        rw brace (ground (arith, ih, two))
    | inr other ↦
        let ih = double_braces-format t rest in
        let two = emit-emit (c ∷ []) t (format_from 0 args rest) in
        rw other (ground (arith, ih, two))
  ]

  placeholder-braces :
      (body : Text) (v : Value N) → placeholder body args ≡ some v → any is_brace body ≡ false
  unfolding placeholder
  placeholder-braces body v h = elim (Option-cases (index_of body)) [
    | inl e ↦ absurd (ground arith)
    | inr (i, e) ↦ index_of-braces body i e
  ]

  slot-format :
      (body rest : Text) (v : Value N)
      → placeholder body args ≡ some v
      → format_from 0 args (b'{' ∷ (body ++ b'}' ∷ rest))
        ≡ emit (display v) (format_from 0 args rest)
  unfolding format_from
  slot-format body rest v h =
      let clean = placeholder-braces body v h in
      ground
        (arith, begins-brace body rest clean, cut-brace body rest clean, skip_past b'}' body rest)

  -- What a piece stands for.
  abbrev pub filled : List Piece → Text
  filled [] = []
  filled (plain t ∷ ps) = t ++ filled ps
  filled (slot body ∷ ps) =
      (elim (placeholder body args) [ none ↦ [] | some v ↦ display v ]) ++ filled ps

  -- A placeholder names an argument.
  abbrev pub Fits : Piece → Type 0
  Fits (plain t) = Unit
  Fits (slot body) = (v : Value N) × (placeholder body args ≡ some v)

  -- A template whose braces are doubled in its plain pieces, and whose placeholders all name an
  -- argument, formats to the plain pieces with the displays of the arguments between them.
  pub format_github-render :
      (ps : List Piece) → All Fits ps → format_github (render ps) args ≡ ok (filled ps)
  unfolding format_github render format_from
  format_github-render [] h = refl
  format_github-render (plain t ∷ ps) h =
      rw (double_braces-format t (render ps)) (ground (arith, format_github-render ps h.1))
  format_github-render (slot body ∷ ps) h =
      rw (slot-format body (render ps) h.0.0 h.0.1)
        (ground (arith, h.0.1, format_github-render ps h.1))
