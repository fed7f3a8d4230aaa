-- ===== src/Expression/Parser.antt =====
-- internal/workflow/expression/parser.go: recursive descent over the tokens. The state of the
-- parser is the list of the tokens from `p.pos` on. Each call costs a unit of fuel.
pub mod Fuel
pub mod Print
pub mod Stages
pub mod Ends
pub mod Nodes
pub mod RoundTrip
use forgelet.Prelude.{
  ℕ, zero, suc, ◌+◌, ◌*◌, true, false, Option, none, some, Text, text, is, text_key, if◌then◌else◌,
}
use forgelet.Expression.Errors.{Position}
use forgelet.Expression.Value.{Value, null, bool, num, str}
use forgelet.Expression.Syntax.{
  Op, Node, Args, or_op, and_op, eq_op, ne_op, lt_op, le_op, gt_op, ge_op, literal, ident, member,
  negate, binary, call, no_args, arg,
}
use forgelet.Expression.Tokens.{
  Punct, Tokens, punct_key, bang, and_and, or_or, eq_eq, bang_eq, less, less_eq, greater,
  greater_eq, dot, lbrack, rbrack, lparen, rparen, comma, word, number, quoted, punct, eof, tok,
  count, cur_position,
}

-- `out_of_fuel` has no counterpart in the program. An error stands at the position of a token.
pub data Parsed {ℓ} (A : Type ℓ) : Type ℓ where
  done : A → Parsed A
  failed : Position → Parsed A
  out_of_fuel : Parsed A

infixl 5 ◌>>=◌
abbrev pub ◌>>=◌ {ℓ κ} : {A : Type ℓ} {B : Type κ} → Parsed A → (A → Parsed B) → Parsed B
done a >>= f = f a
failed at >>= f = failed at
out_of_fuel >>= f = out_of_fuel

-- The operator of a comparison.
unfoldable pub comparison : Punct → Option Op
comparison eq_eq = some eq_op
comparison bang_eq = some ne_op
comparison less = some lt_op
comparison less_eq = some le_op
comparison greater = some gt_op
comparison greater_eq = some ge_op
comparison _ = none

module _ {N : Type 0} where
  -- `p.match`: the tokens behind the punctuation, if it stands there.
  unfoldable pub match : Punct → Tokens N → Option (Tokens N)
  match p (tok (punct q) at ts) = if is q p then some ts else none
  match p _ = none

  unfoldable pub match_comparison : Tokens N → Option (Op × Tokens N)
  unfolding comparison
  match_comparison (tok (punct q) at ts) = elim (comparison q) [
    | none ↦ none
    | some op ↦ some (op, ts)
  ]
  match_comparison _ = none

  -- The property behind a `.`: a name, or a number.
  unfoldable pub property : Node N → Option (Node N)
  property (ident name) = some (literal (str name))
  property (literal (num n)) = some (literal (num n))
  property _ = none

  -- A word that is a literal.
  unfoldable pub keyword : Text → Option (Value N)
  keyword name =
      if is name (text "null")
      then some null
      else (if is name (text "true")
          then some (bool true)
          else (if is name (text "false") then some (bool false) else none))

  unfoldable mutual
    pub parse_or : ℕ → Tokens N → Parsed (Node N × Tokens N)
    parse_or zero ts = out_of_fuel
    parse_or (suc f) ts = parse_and f ts >>= λ (left, rest). or_loop f left rest

    pub or_loop : ℕ → Node N → Tokens N → Parsed (Node N × Tokens N)
    or_loop zero left ts = out_of_fuel
    or_loop (suc f) left ts = elim (match or_or ts) [
      | none ↦ done (left, ts)
      | some more ↦ parse_and f more >>= λ (right, rest). or_loop f (binary or_op left right) rest
    ]

    pub parse_and : ℕ → Tokens N → Parsed (Node N × Tokens N)
    parse_and zero ts = out_of_fuel
    parse_and (suc f) ts = parse_compare f ts >>= λ (left, rest). and_loop f left rest

    pub and_loop : ℕ → Node N → Tokens N → Parsed (Node N × Tokens N)
    and_loop zero left ts = out_of_fuel
    and_loop (suc f) left ts = elim (match and_and ts) [
      | none ↦ done (left, ts)
      | some more ↦
          parse_compare f more >>= λ (right, rest). and_loop f (binary and_op left right) rest
    ]

    pub parse_compare : ℕ → Tokens N → Parsed (Node N × Tokens N)
    parse_compare zero ts = out_of_fuel
    parse_compare (suc f) ts = parse_unary f ts >>= λ (left, rest). compare_loop f left rest

    pub compare_loop : ℕ → Node N → Tokens N → Parsed (Node N × Tokens N)
    compare_loop zero left ts = out_of_fuel
    compare_loop (suc f) left ts = elim (match_comparison ts) [
      | none ↦ done (left, ts)
      | some (op, more) ↦
          parse_unary f more >>= λ (right, rest). compare_loop f (binary op left right) rest
    ]

    pub parse_unary : ℕ → Tokens N → Parsed (Node N × Tokens N)
    parse_unary zero ts = out_of_fuel
    parse_unary (suc f) ts = elim (match bang ts) [
      | none ↦ parse_postfix f ts
      | some more ↦ parse_unary f more >>= λ (x, rest). done (negate x, rest)
    ]

    pub parse_postfix : ℕ → Tokens N → Parsed (Node N × Tokens N)
    parse_postfix zero ts = out_of_fuel
    parse_postfix (suc f) ts = parse_primary f ts >>= λ (x, rest). postfix_loop f x rest

    pub postfix_loop : ℕ → Node N → Tokens N → Parsed (Node N × Tokens N)
    postfix_loop zero x ts = out_of_fuel
    postfix_loop (suc f) x ts = elim (match dot ts) [
      | some more ↦ parse_primary f more >>= λ (p, rest). elim (property p) [
        | none ↦ failed (cur_position rest)
        | some prop ↦ postfix_loop f (member x prop) rest
      ]
      | none ↦ elim (match lbrack ts) [
        | none ↦ done (x, ts)
        | some more ↦ parse_or f more >>= λ (idx, rest). elim (match rbrack rest) [
          | none ↦ failed (cur_position rest)
          | some after ↦ postfix_loop f (member x idx) after
        ]
      ]
    ]

    pub parse_primary : ℕ → Tokens N → Parsed (Node N × Tokens N)
    parse_primary zero ts = out_of_fuel
    parse_primary (suc f) (tok (number n) at ts) = done (literal (num n), ts)
    parse_primary (suc f) (tok (quoted s) at ts) = done (literal (str s), ts)
    parse_primary (suc f) (tok (word name) at ts) = elim (keyword name) [
      | some v ↦ done (literal v, ts)
      | none ↦ elim (match lparen ts) [
        | none ↦ done (ident name, ts)
        | some inner ↦ elim (match rparen inner) [
          | some after ↦ done (call name no_args, after)
          | none ↦ parse_args f inner >>= λ (args, after). done (call name args, after)
        ]
      ]
    ]
    parse_primary (suc f) (tok (punct lparen) at ts) = parse_or f ts >>= λ (inner, rest).
        elim (match rparen rest) [
          | none ↦ failed (cur_position rest)
          | some after ↦ done (inner, after)
        ]
    parse_primary (suc f) (tok (punct other) at ts) = failed at
    parse_primary (suc f) (eof at) = failed at

    -- The loop over the arguments of a call, up to its `)`.
    pub parse_args : ℕ → Tokens N → Parsed (Args N × Tokens N)
    parse_args zero ts = out_of_fuel
    parse_args (suc f) ts = parse_or f ts >>= λ (x, rest). elim (match comma rest) [
      | some more ↦ parse_args f more >>= λ (xs, after). done (arg x xs, after)
      | none ↦ elim (match rparen rest) [
        | none ↦ failed (cur_position rest)
        | some after ↦ done (arg x no_args, after)
      ]
    ]

  -- The whole expression has to be read.
  unfoldable pub at_end : Node N → Tokens N → Parsed (Node N)
  at_end x (eof at) = done x
  at_end x (tok t at ts) = failed at

  unfoldable pub parse_tokens : Tokens N → Parsed (Node N)
  unfolding at_end
  parse_tokens ts = parse_or (8 * count ts + 7) ts >>= λ (x, rest). at_end x rest
