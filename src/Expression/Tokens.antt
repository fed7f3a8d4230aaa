-- ===== src/Expression/Tokens.antt =====
-- internal/workflow/expression/lexer.go: the tokens of an expression, with their places.
use forgelet.Prelude.{ℕ, suc, Text, Key}
use forgelet.Expression.Errors.{Position}

-- The punctuation that the lexer lets through.
pub data Punct : Type 0 where
  bang and_and or_or eq_eq bang_eq less less_eq greater greater_eq : Punct
  dot lbrack rbrack lparen rparen comma : Punct

unfoldable pub Punct-discrete : Discrete Punct
Punct-discrete = hlevel

instance abbrev pub punct_key : Key Punct
punct_key = record { dec = Punct-discrete }

pub data Token (N : Type 0) : Type 0 where
  word : Text → Token N
  number : N → Token N
  quoted : Text → Token N
  punct : Punct → Token N

-- A list of tokens that ends with the token for the end of the input.
pub data Tokens (N : Type 0) : Type 0 where
  eof : Position → Tokens N
  tok : Token N → Position → Tokens N → Tokens N

-- The number of tokens before the end.
abbrev pub count : {N : Type 0} → Tokens N → ℕ
count (eof at) = 0
count (tok t at ts) = suc (count ts)

-- The place of `p.cur()`.
abbrev pub cur_position : {N : Type 0} → Tokens N → Position
cur_position (eof at) = at
cur_position (tok t at ts) = at
