-- ===== src/Prelude/Strings.antt =====
-- Go's strings: sequences of bytes, compared byte by byte.
use Prim.Native.Char.{code}
use Prim.Native.String.{String}
use Prim.Native.Nat.{ℕ, ◌+◌}
use mathlib.Core.Path.{◌≡◌, refl}
use native.Mathlib.Omega.{arith}
use mathlib.Core.Bool.{Bool, true, false, ◌&&◌, ◌||◌}
use mathlib.Core.Option.{Option, none, some}
use mathlib.Core.List.{List, [], ◌∷◌, ◌++◌, map, reverse}
use native.Mathlib.Decide.{ℕ_discrete}
use forgelet.Prelude.Tests.{any, Key, if◌then◌else◌, ltb, leb, ◌==◌, is}

abbrev pub Text : Type 0
Text = List ℕ

-- The bytes of an ASCII literal.
abbrev pub text : String → Text
text String.[] = []
text (String.◌∷◌ c s) = code c ∷ text s

unfoldable pub Text-discrete : Discrete Text
unfolding ℕ_discrete
Text-discrete = hlevel ℕ_discrete

instance abbrev pub text_key : Key Text
text_key = record { dec = Text-discrete }

-- `a < b` on Go strings.
unfoldable pub text_lt : Text → Text → Bool
text_lt [] [] = false
text_lt [] (y ∷ ys) = true
text_lt (x ∷ xs) [] = false
text_lt (x ∷ xs) (y ∷ ys) =
    let rest = text_lt xs ys in if ltb x y then true else (if ltb y x then false else rest)

unfoldable pub lower_byte : ℕ → ℕ
lower_byte c = if leb b'A' c && leb c b'Z' then c + 32 else c

-- `strings.ToLower` on ASCII.
unfoldable pub to_lower : Text → Text
unfolding lower_byte
to_lower s = map lower_byte s

-- `strings.EqualFold` on ASCII.
unfoldable pub equal_fold : Text → Text → Bool
unfolding to_lower
equal_fold a b = is (to_lower a) (to_lower b)

-- ASCII white space, as `unicode.IsSpace` has it.
unfoldable pub is_space : ℕ → Bool
is_space c = c == 32 || c == 9 || c == 10 || c == 11 || c == 12 || c == 13

unfoldable pub trim_left : Text → Text
unfolding is_space
trim_left [] = []
trim_left (c ∷ s) = let rest = trim_left s in if is_space c then rest else c ∷ s

-- `strings.TrimSpace` on ASCII.
unfoldable pub trim_space : Text → Text
unfolding trim_left
trim_space s = reverse (trim_left (reverse (trim_left s)))

-- `strings.CutPrefix`: what follows the prefix.
unfoldable pub cut_prefix : Text → Text → Option Text
cut_prefix [] s = some s
cut_prefix (c ∷ p) [] = none
cut_prefix (c ∷ p) (d ∷ s) = let rest = cut_prefix p s in if c == d then rest else none

unfoldable pub has_prefix : Text → Text → Bool
unfolding cut_prefix
has_prefix p s = elim (cut_prefix p s) [ none ↦ false | some rest ↦ true ]

unfoldable pub has_suffix : Text → Text → Bool
unfolding has_prefix
has_suffix p s = has_prefix (reverse p) (reverse s)

-- `strings.Cut`: the text before the first occurrence, and the text behind it.
unfoldable pub cut : Text → Text → Option (Text × Text)
unfolding cut_prefix
cut sep [] = elim (cut_prefix sep []) [ none ↦ none | some after ↦ some ([], after) ]
cut sep (c ∷ s) =
    let later = cut sep s in
    elim (cut_prefix sep (c ∷ s)) [
      | some after ↦ some ([], after)
      | none ↦ elim later [ none ↦ none | some (before, after) ↦ some (c ∷ before, after) ]
    ]

-- `strings.Contains`
unfoldable pub contains_text : Text → Text → Bool
unfolding cut
contains_text part s = elim (cut part s) [ none ↦ false | some found ↦ true ]

-- `strings.Join`
unfoldable pub join : Text → List Text → Text
join sep [] = []
join sep (x ∷ []) = x
join sep (x ∷ y ∷ xs) = x ++ sep ++ join sep (y ∷ xs)

abbrev grow : ℕ → List Text → List Text
grow c [] = (c ∷ []) ∷ []
grow c (s ∷ ss) = (c ∷ s) ∷ ss

-- `strings.Split` at a separator of one byte.
unfoldable pub split_byte : ℕ → Text → List Text
split_byte b [] = [] ∷ []
split_byte b (c ∷ s) = let rest = split_byte b s in if c == b then [] ∷ rest else grow c rest

-- A text without the byte, before a separator of two of them, is cut off there.
pub cut-double :
    (b : ℕ) (s rest : Text)
    → any (λ c. c == b) s ≡ false
    → cut (b ∷ b ∷ []) (s ++ b ∷ b ∷ rest) ≡ some (s, rest)
unfolding cut cut_prefix
cut-double b [] rest h = ground arith
cut-double b (c ∷ s) rest h = ground (arith, cut-double b s rest)

pub cut-single :
    (b : ℕ) (s rest : Text)
    → any (λ c. c == b) s ≡ false
    → cut (b ∷ []) (s ++ b ∷ rest) ≡ some (s, rest)
unfolding cut cut_prefix
cut-single b [] rest h = ground arith
cut-single b (c ∷ s) rest h = ground (arith, cut-single b s rest)

-- A text without the byte is not cut.
pub cut-none : (b : ℕ) (s : Text) → any (λ c. c == b) s ≡ false → cut (b ∷ []) s ≡ none
unfolding cut cut_prefix
cut-none b [] h = refl
cut-none b (c ∷ s) h = ground (arith, cut-none b s)

pub any-append : (p : ℕ → Bool) (s t : Text) → any p (s ++ t) ≡ any p s || any p t
any-append p [] t = refl
any-append p (c ∷ s) t = let ih = any-append p s t in ground arith
