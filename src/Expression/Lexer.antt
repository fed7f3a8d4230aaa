-- ===== src/Expression/Lexer.antt =====
-- internal/workflow/expression/lexer.go: from the bytes of an expression to its tokens, and `parse`
-- of parser.go on top. The text and the position stand for the lexer's `src` and `pos`.
pub mod Fuel
use forgelet.Prelude.{
  ℕ, zero, suc, ◌+◌, Bool, true, false, not, ◌&&◌, ◌||◌, Option, none, some, List, [], ◌∷◌, ◌++◌,
  Text, length, leb, ◌==◌, if◌then◌else◌,
}
use forgelet.Expression.Errors.{Position}
use forgelet.Expression.Value.{Float}
use forgelet.Expression.Syntax.{Node}
use forgelet.Expression.Tokens.{
  Punct, Token, Tokens, bang, and_and, or_or, eq_eq, bang_eq, less, less_eq, greater, greater_eq,
  dot, lbrack, rbrack, lparen, rparen, comma, word, number, quoted, punct, eof, tok,
}
use forgelet.Expression.Parser.{Parsed, done, failed, out_of_fuel, ◌>>=◌, parse_tokens}

unfoldable pub is_digit : ℕ → Bool
is_digit c = leb b'0' c && leb c b'9'

unfoldable pub is_ident_start : ℕ → Bool
is_ident_start c = leb b'a' c && leb c b'z' || leb b'A' c && leb c b'Z' || c == b'_'

unfoldable pub is_ident_part : ℕ → Bool
unfolding is_ident_start is_digit
is_ident_part c = is_ident_start c || is_digit c || c == b'-'

unfoldable pub is_white : ℕ → Bool
is_white c = c == 32 || c == 9 || c == 13 || c == 10

-- `lexer.advance` over one byte: 10 is the line feed.
unfoldable pub advance : Position → ℕ → Position
advance at c = record {
  offset = suc (at.offset);
  line = if c == 10 then suc (at.line) else at.line;
  column = if c == 10 then 1 else suc (at.column);
}

unfoldable pub advance_all : Position → Text → Position
unfolding advance
advance_all at [] = at
advance_all at (c ∷ s) = advance_all (advance at c) s

-- Where `newLexer` starts.
abbrev pub origin : Position
origin = record { offset = 0; line = 1; column = 1 }

-- The longest run of bytes that pass the test, and what follows.
unfoldable pub span : (ℕ → Bool) → Text → Text × Text
span p [] = ([], [])
span p (c ∷ s) = let next = span p s in if p c then (c ∷ next.0, next.1) else ([], c ∷ s)

abbrev pub starts_digit : Text → Bool
starts_digit [] = false
starts_digit (c ∷ s) = is_digit c

-- The digits of a number, with at most one dot, which a digit follows.
unfoldable pub span_number : Bool → Text → Text × Text
unfolding is_digit
span_number has_dot [] = ([], [])
span_number has_dot (c ∷ s) =
    let next = span_number (has_dot || not (is_digit c)) s in
    if is_digit c || c == b'.' && not has_dot && starts_digit s
    then (c ∷ next.0, next.1)
    else ([], c ∷ s)

-- Behind the opening quote: the value, the bytes read and what follows. The flag says that the
-- byte before was a quote, which ends the string unless another one follows.
unfoldable pub span_quoted : Bool → Text → Option (Text × Text × Text)
span_quoted false [] = none
span_quoted true [] = some ([], [], [])
span_quoted false (c ∷ s) = elim (span_quoted (c == 39) s) [
  | none ↦ none
  | some (value, raw, rest) ↦ some (if c == 39 then value else c ∷ value, c ∷ raw, rest)
]
span_quoted true (c ∷ s) =
    let next : Option (Text × Text × Text) = elim (span_quoted false s) [
      | none ↦ none
      | some (value, raw, rest) ↦ some (c ∷ value, c ∷ raw, rest)
    ] in
    if c == 39 then next else some ([], [], c ∷ s)

unfoldable pub two_bytes : ℕ → ℕ → Option Punct
two_bytes c d =
    if c == b'&' && d == b'&'
    then some and_and
    else (if c == b'|' && d == b'|'
        then some or_or
        else (if not (d == b'=')
            then none
            else (if c == b'='
                then some eq_eq
                else (if c == b'!'
                    then some bang_eq
                    else (if c == b'<'
                        then some less_eq
                        else (if c == b'>' then some greater_eq else none))))))

-- Brackets and parentheses by their codes: 91 and 93, 40 and 41.
unfoldable pub one_byte : ℕ → Option Punct
one_byte c =
    if c == b'!'
    then some bang
    else (if c == b'<'
        then some less
        else (if c == b'>'
            then some greater
            else (if c == b'.'
                then some dot
                else (if c == 91
                    then some lbrack
                    else (if c == 93
                        then some rbrack
                        else (if c == 40
                            then some lparen
                            else (if c == 41
                                then some rparen
                                else (if c == b',' then some comma else none))))))))

module _ {N : Type 0} where
  abbrev pub single : ℕ → Text → Option (Token N × Text × Text)
  single c s = elim (one_byte c) [ none ↦ none | some p ↦ some (punct p, c ∷ [], s) ]

  unfoldable pub punctuation : ℕ → Text → Option (Token N × Text × Text)
  unfolding one_byte two_bytes
  punctuation c [] = single c []
  punctuation c (d ∷ s) = elim (two_bytes c d) [
    | some p ↦ some (punct p, c ∷ d ∷ [], s)
    | none ↦ single c (d ∷ s)
  ]

  module _ ⦃float : Float N⦄ where
    unfoldable pub number_token : Text × Text → Option (Token N × Text × Text)
    number_token (raw, rest) = elim (float.parse_float raw) [
      | none ↦ none
      | some n ↦ some (number n, raw, rest)
    ]

    unfoldable pub string_token : Option (Text × Text × Text) → Option (Token N × Text × Text)
    string_token none = none
    string_token (some (value, raw, rest)) = some (quoted value, 39 ∷ raw, rest)

    -- The token at the byte `c`, before `s`, with the bytes of it and the rest.
    unfoldable pub scan : ℕ → Text → Option (Token N × Text × Text)
    unfolding is_ident_part span span_number span_quoted punctuation number_token string_token
    scan c s =
        let name = span is_ident_part s in
        let digits = span_number false s in
        if is_ident_start c
        then some (word (c ∷ name.0), c ∷ name.0, name.1)
        else (if is_digit c || c == b'-' && starts_digit s
            then number_token (c ∷ digits.0, digits.1)
            else (if c == 39 then string_token (span_quoted false s) else punctuation c s))

    -- `lexer.tokens`, with a unit of fuel for each token.
    unfoldable pub tokens : ℕ → Position → Text → Parsed (Tokens N)
    unfolding is_white advance_all span scan
    tokens zero at s = out_of_fuel
    tokens (suc f) at s =
        let start = advance_all at (span is_white s).0 in
        elim (span is_white s).1 [
          | [] ↦ done (eof start)
          | c ∷ more ↦ elim (scan c more) [
            | none ↦ failed start
            | some (t, raw, rest) ↦
                tokens f (advance_all start raw) rest >>= λ ts. done (tok t start ts)
          ]
        ]

    unfoldable pub parse : Text → Parsed (Node N)
    unfolding tokens parse_tokens
    parse s = tokens (suc (length s)) origin s >>= λ ts. parse_tokens ts
