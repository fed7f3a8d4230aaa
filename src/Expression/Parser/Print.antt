-- ===== src/Expression/Parser/Print.antt =====
-- A printer for the nodes of an expression: every node that is no word, number or text stands in
-- parentheses. All tokens are given the same place.
use forgelet.Prelude.{ℕ, ◌+◌, ◌*◌, ◌≡◌, ◌≤◌, true, false, none, text, arith}
use forgelet.Expression.Errors.{Position}
use forgelet.Expression.Value.{Value, bool, num, str, arr, obj}
use forgelet.Expression.Syntax.{
  Op, Node, Args, or_op, and_op, eq_op, ne_op, lt_op, le_op, gt_op, ge_op, literal, ident, member,
  negate, binary, call, no_args, arg,
}
use forgelet.Expression.Tokens.{
  Punct, Token, Tokens, bang, and_and, or_or, eq_eq, bang_eq, less, less_eq, greater, greater_eq,
  lbrack, rbrack, lparen, rparen, comma, word, number, quoted, punct, tok, count,
}
use forgelet.Expression.Parser.{keyword}

abbrev pub symbol : Op → Punct
symbol or_op = or_or
symbol and_op = and_and
symbol eq_op = eq_eq
symbol ne_op = bang_eq
symbol lt_op = less
symbol le_op = less_eq
symbol gt_op = greater
symbol ge_op = greater_eq

module _ {N : Type 0} where
  -- Arrays and objects have no notation.
  abbrev pub value_token : Value N → Token N
  value_token (num n) = number n
  value_token (str s) = quoted s
  value_token (bool true) = word (text "true")
  value_token (bool false) = word (text "false")
  value_token _ = word (text "null")

  -- The expression can be written: no array or object, and no name that is a literal.
  abbrev mutual
    pub Printable : Node N → Type 0
    Printable (literal (arr xs)) = ⊥
    Printable (literal (obj fs)) = ⊥
    Printable (literal v) = Unit
    Printable (ident name) = keyword {N = N} name ≡ none
    Printable (member o p) = Printable o × Printable p
    Printable (negate x) = Printable x
    Printable (binary op l r) = Printable l × Printable r
    Printable (call name args) = (keyword {N = N} name ≡ none) × PrintableArgs args

    pub PrintableArgs : Args N → Type 0
    PrintableArgs no_args = Unit
    PrintableArgs (arg x xs) = Printable x × PrintableArgs xs

  module _ (p : Position) where
    abbrev pub mark : Punct → Tokens N → Tokens N
    mark q ts = tok (punct q) p ts

    -- The tokens of a node, before the tokens that follow.
    abbrev mutual
      pub print : Node N → Tokens N → Tokens N
      print (literal v) ts = tok (value_token v) p ts
      print (ident name) ts = tok (word name) p ts
      print (member o i) ts =
          mark lparen (print o (mark lbrack (print i (mark rbrack (mark rparen ts)))))
      print (negate x) ts = mark lparen (mark bang (print x (mark rparen ts)))
      print (binary op l r) ts = mark lparen (print l (mark (symbol op) (print r (mark rparen ts))))
      print (call name no_args) ts = tok (word name) p (mark lparen (mark rparen ts))
      print (call name (arg x xs)) ts = tok (word name) p (mark lparen (print x (print_args xs ts)))

      -- The arguments behind the first one.
      pub print_args : Args N → Tokens N → Tokens N
      print_args no_args ts = mark rparen ts
      print_args (arg x xs) ts = mark comma (print x (print_args xs ts))
      -- The fuel that `parse_primary` needs for the tokens of a node.

  abbrev mutual
    pub need : Node N → ℕ
    need (literal v) = 1
    need (ident name) = 1
    need (member o i) = need o + need i + 16
    need (negate x) = need x + 12
    need (binary op l r) = need l + need r + 12
    need (call name args) = need_args args + 2

    pub need_args : Args N → ℕ
    need_args no_args = 1
    need_args (arg x xs) = need x + need_args xs + 8

  mutual
    pub need-count :
        (p : Position) (e : Node N) (ts : Tokens N)
        → need e + 8 * count ts ≤ 8 * count (print p e ts)
    need-count p (literal v) ts = omega arith
    need-count p (ident name) ts = omega arith
    need-count p (member o i) ts =
        let a = need-count p i (mark p rbrack (mark p rparen ts)) in
        let b = need-count p o (mark p lbrack (print p i (mark p rbrack (mark p rparen ts)))) in
        omega arith
    need-count p (negate x) ts = let a = need-count p x (mark p rparen ts) in omega arith
    need-count p (binary op l r) ts =
        let a = need-count p r (mark p rparen ts) in
        let b = need-count p l (mark p (symbol op) (print p r (mark p rparen ts))) in omega arith
    need-count p (call name no_args) ts = omega arith
    need-count p (call name (arg x xs)) ts =
        let a = need_args-count p xs ts in
        let b = need-count p x (print_args p xs ts) in omega arith

    pub need_args-count :
        (p : Position) (xs : Args N) (ts : Tokens N)
        → need_args xs + 8 * count ts ≤ 8 * count (print_args p xs ts)
    need_args-count p no_args ts = omega arith
    need_args-count p (arg x xs) ts =
        let a = need_args-count p xs ts in
        let b = need-count p x (print_args p xs ts) in omega arith
