-- ===== src/Expression/Lexer/Fuel.antt =====
-- The fuel of the lexer, and the places of its tokens.
use forgelet.Prelude.{
  ℕ, zero, suc, ◌+◌, ◌<◌, ◌≤◌, ◌≡◌, ◌≢◌, refl, Bool, not, ◌||◌, ◌==◌, ◌&&◌, Bool-cases, true, false,
  Option, none, some, [], ◌∷◌, Text, length, arith, Option-cases, inl, inr, ◌⊎◌,
}
use forgelet.Expression.Errors.{Position}
use forgelet.Expression.Value.{Float}
use forgelet.Expression.Tokens.{Token, Tokens, eof, tok}
use forgelet.Expression.Parser.{Parsed, done, failed, out_of_fuel, ◌>>=◌, parse_tokens}
use forgelet.Expression.Parser.Fuel.{parse_tokens-ne-out_of_fuel}
use forgelet.Expression.Lexer.{
  advance, advance_all, span, span_number, span_quoted, punctuation, scan, tokens, parse, is_white,
  is_digit, origin, is_ident_start, is_ident_part, starts_digit, one_byte, two_bytes, number_token,
  string_token,
}

-- The tokens stand at offsets that go up, from `lo` on, and the end at `hi`.
abbrev pub InOrder : {N : Type 0} → ℕ → ℕ → Tokens N → Type 0
InOrder lo hi (eof at) = (lo ≤ at.offset) × (at.offset ≡ hi)
InOrder lo hi (tok t at ts) = (lo ≤ at.offset) × InOrder (suc (at.offset)) hi ts

-- The lexer returned, its tokens are in order, and an error stands at one of the bytes.
abbrev pub Fits : {N : Type 0} → ℕ → ℕ → Parsed (Tokens N) → Type 0
Fits lo hi (done ts) = InOrder lo hi ts
Fits lo hi (failed at) = (lo ≤ at.offset) × (at.offset < hi)
Fits lo hi out_of_fuel = ⊥

offset-advance_all : (at : Position) (s : Text) → (advance_all at s).offset ≡ at.offset + length s
unfolding advance_all
offset-advance_all at [] = omega arith
offset-advance_all at (c ∷ s) = let ih = offset-advance_all (advance at c) s in omega arith

span-length : (p : ℕ → Bool) (s : Text) → length (span p s).0 + length (span p s).1 ≡ length s
unfolding span
span-length p [] = refl
span-length p (c ∷ s) = let ih = span-length p s in ground arith

span_number-length :
    (has_dot : Bool) (s : Text)
    → length (span_number has_dot s).0 + length (span_number has_dot s).1 ≡ length s
unfolding span_number
span_number-length has_dot [] = refl
span_number-length has_dot (c ∷ s) =
    let ih = span_number-length (has_dot || not (is_digit c)) s in ground arith

Text-cases : (s : Text) → (s ≡ []) ⊎ ((c : ℕ) × (more : Text) × (s ≡ c ∷ more))
Text-cases [] = inl refl
Text-cases (c ∷ s) = inr (c, s, refl)

length-of : {s t : Text} → s ≡ t → length s ≡ length t
length-of e = λ i. length (e i)

-- What was read, `least` bytes and more, and the rest are `n` bytes together.
abbrev pub Took : {A : Type 0} → ℕ → ℕ → Option (A × Text × Text) → Type 0
Took least n none = Unit
Took least n (some (a, raw, rest)) = (least ≤ length raw) × (length raw + length rest ≡ n)

span_quoted-Took : (after : Bool) (s : Text) → Took 0 (length s) (span_quoted after s)
unfolding span_quoted
span_quoted-Took false [] = tt
span_quoted-Took true [] = (omega arith, refl)
span_quoted-Took false (c ∷ s) = elim (Option-cases (span_quoted (c == 39) s)) [
  | inl e ↦ rw (e, Took) tt
  | inr ((value, raw, rest), e) ↦
      let ih = span_quoted-Took (c == 39) s in
      let k = (rw e at ih) in rw (e, Took) (omega arith, omega arith)
]
span_quoted-Took true (c ∷ s) = elim (Option-cases (span_quoted false s)) [
  | inl e ↦ rw (e, Took) (ground arith)
  | inr ((value, raw, rest), e) ↦
      let ih = span_quoted-Took false s in let k = (rw e at ih) in rw (e, Took) (ground arith)
]

module _ (N : Type 0) where
  punctuation-Took : (c : ℕ) (s : Text) → Took 1 (suc (length s)) (punctuation {N = N} c s)
  unfolding punctuation
  punctuation-Took c [] = elim (Option-cases (one_byte c)) [
    | inl e ↦ rw (e, Took) tt
    | inr (p, e) ↦ rw (e, Took) (omega arith, omega arith)
  ]
  punctuation-Took c (d ∷ s) = elim (Option-cases (two_bytes c d)) [
    | inr (p, e) ↦ rw (e, Took) (omega arith, omega arith)
    | inl e ↦ elim (Option-cases (one_byte c)) [
      | inl g ↦ rw (e, g, Took) tt
      | inr (p, g) ↦ rw (e, g, Took) (omega arith, omega arith)
    ]
  ]

  module _ ⦃float : Float N⦄ where
    number_token-Took :
        (n : ℕ) (raw rest : Text)
        → length raw + length rest ≡ n
        → 1 ≤ length raw
        → Took 1 n (number_token {N = N} (raw, rest))
    unfolding number_token
    number_token-Took n raw rest h j = elim (Option-cases (float.parse_float raw)) [
      | inl e ↦ rw (e, Took) tt
      | inr (p, e) ↦ rw (e, Took) (j, h)
    ]

    string_token-Took :
        (n : ℕ) (r : Option (Text × Text × Text))
        → Took 0 n r
        → Took 1 (suc n) (string_token {N = N} r)
    unfolding string_token
    string_token-Took n none h = tt
    string_token-Took n (some (value, raw, rest)) h = (omega arith, omega arith)

    scan-Took : (c : ℕ) (s : Text) → Took 1 (suc (length s)) (scan {N = N} c s)
    unfolding scan
    scan-Took c s =
        let h = span-length is_ident_part s in
        let k =
          number_token-Took (suc (length s)) (c ∷ (span_number false s).0) (span_number false s).1
            (let d = span_number-length false s in omega arith) (omega arith) in
        let q = string_token-Took (length s) (span_quoted false s) (span_quoted-Took false s) in
        let p = punctuation-Took c s in
        elim (Bool-cases (is_ident_start c)) [
          | inl a ↦ rw (a, Took) (omega arith, omega arith)
          | inr a ↦ elim (Bool-cases (is_digit c || c == b'-' && starts_digit s)) [
            | inl b ↦ rw (a, b) k
            | inr b ↦ elim (Bool-cases (c == 39)) [
              | inl d ↦ rw (a, b, d) q
              | inr d ↦ rw (a, b, d) p
            ]
          ]
        ]

    Fits-tok :
        (lo hi m : ℕ) (t : Token N) (at : Position) (r : Parsed (Tokens N))
        → lo ≤ at.offset
        → at.offset < m
        → Fits m hi r
        → Fits lo hi (r >>= λ ts. done (tok t at ts))
    Fits-tok lo hi m t at (done (eof p)) a b h = (a, (omega arith, h.1))
    Fits-tok lo hi m t at (done (tok u p ts)) a b h = (a, (omega arith, h.1))
    Fits-tok lo hi m t at (failed p) a b h = (omega arith, h.1)
    Fits-tok lo hi m t at out_of_fuel a b h = h

    Fits-top : (lo m n : ℕ) (r : Parsed (Tokens N)) → m ≡ n → Fits lo m r → Fits lo n r
    Fits-top lo m n r e h = rw (← e) h

    -- The lexer, started at a position with more fuel than there are bytes, comes to an end: either
    -- with tokens at strictly increasing offsets, the end of the input at the offset where the
    -- bytes end, or with an error at the offset of one of the bytes.
    pub tokens-Fits :
        (f : ℕ) (at : Position) (s : Text)
        → length s < f
        → Fits (at.offset) (at.offset + length s) (tokens {N = N} f at s)
    unfolding tokens
    tokens-Fits zero at s h = absurd (omega arith)
    tokens-Fits (suc f) at s h =
        let b = span-length is_white s in
        let o = offset-advance_all at (span is_white s).0 in
        elim (Text-cases (span is_white s).1) [
          | inl e ↦ let l = length-of e in rw (e, Fits) (omega arith, omega arith)
          | inr (c, more, e) ↦
              let l = length-of e in
              elim (Option-cases (scan {N = N} c more)) [
                | inl g ↦ rw (e, g, Fits) (omega arith, omega arith)
                | inr ((t, raw, rest), g) ↦
                    let k = scan-Took c more in
                    let j = (rw g at k) in
                    let start = advance_all at (span is_white s).0 in
                    let p = offset-advance_all start raw in
                    let ih = tokens-Fits f (advance_all start raw) rest (omega arith) in
                    rw (e, g, tokens)
                      (Fits-tok _ _ _ t start _ (omega arith) (omega arith)
                        (Fits-top _ _ _ _ (omega arith) ih))
              ]
        ]

    Fits-parse_tokens :
        (lo hi : ℕ) (r : Parsed (Tokens N))
        → Fits lo hi r
        → (r >>= λ ts. parse_tokens ts) ≢ out_of_fuel
    Fits-parse_tokens lo hi (done ts) h e = parse_tokens-ne-out_of_fuel ts e
    Fits-parse_tokens lo hi (failed at) h e = cc
    Fits-parse_tokens lo hi out_of_fuel h e = h

    -- Every text is parsed or refused: neither the lexer nor the parser runs out of the fuel that
    -- `parse` gives them.
    pub parse-ne-out_of_fuel : (s : Text) → parse {N = N} s ≢ out_of_fuel
    unfolding parse
    parse-ne-out_of_fuel s =
        Fits-parse_tokens (origin.offset) (origin.offset + length s)
          (tokens {N = N} (suc (length s)) origin s)
          (tokens-Fits (suc (length s)) origin s (omega arith))
