-- ===== src/Expression/Parser/Ends.antt =====
-- How printed nodes begin, what follows them, and the levels of the parser up to `parse_or`.
use forgelet.Prelude.{ℕ, ◌+◌, ◌≤◌, ◌≡◌, refl, true, false, none, arith}
use forgelet.Expression.Errors.{Position}
use forgelet.Expression.Value.{Value, null, bool, num, str, arr, obj}
use forgelet.Expression.Syntax.{
  Op, Node, Args, or_op, and_op, eq_op, ne_op, lt_op, le_op, gt_op, ge_op, literal, ident, member,
  negate, binary, call, no_args, arg,
}
use forgelet.Expression.Tokens.{
  Punct, Tokens, Punct-discrete, bang, and_and, or_or, dot, lbrack, rbrack, rparen, comma, eof, tok,
}
use forgelet.Expression.Parser.{
  comparison, match, match_comparison, parse_or, parse_and, parse_compare, parse_unary,
  parse_primary,
}
use forgelet.Expression.Parser.Print.{symbol, value_token, mark, print, print_args, need}
use forgelet.Expression.Parser.Stages.{
  Parses, more_fuel, postfix-primary, unary-postfix, compare-unary, and-compare, or-and,
}

module _ {N : Type 0} where
  -- What does not come next.
  abbrev pub NoSuffix : Tokens N → Type 0
  NoSuffix ts = (match dot ts ≡ none) × (match lbrack ts ≡ none)

  abbrev pub Ends : Tokens N → Type 0
  Ends ts =
      NoSuffix ts
      × (match_comparison ts ≡ none)
      × (match and_and ts ≡ none)
      × (match or_or ts ≡ none)

module _ {N : Type 0} (p : Position) where
  pub value_token-none :
      (q : Punct) (v : Value N) (ts : Tokens N) → match q (tok (value_token v) p ts) ≡ none
  unfolding match
  value_token-none q null ts = refl
  value_token-none q (bool true) ts = refl
  value_token-none q (bool false) ts = refl
  value_token-none q (num n) ts = refl
  value_token-none q (str s) ts = refl
  value_token-none q (arr xs) ts = refl
  value_token-none q (obj fs) ts = refl

  -- A node begins with no punctuation but an opening parenthesis.
  pub bang-print : (e : Node N) (ts : Tokens N) → match bang (print p e ts) ≡ none
  unfolding match Punct-discrete
  bang-print (literal v) ts = value_token-none bang v ts
  bang-print (ident name) ts = refl
  bang-print (member o i) ts = refl
  bang-print (negate x) ts = refl
  bang-print (binary op l r) ts = refl
  bang-print (call name no_args) ts = refl
  bang-print (call name (arg x xs)) ts = refl

  pub rparen-print : (e : Node N) (ts : Tokens N) → match rparen (print p e ts) ≡ none
  unfolding match Punct-discrete
  rparen-print (literal v) ts = value_token-none rparen v ts
  rparen-print (ident name) ts = refl
  rparen-print (member o i) ts = refl
  rparen-print (negate x) ts = refl
  rparen-print (binary op l r) ts = refl
  rparen-print (call name no_args) ts = refl
  rparen-print (call name (arg x xs)) ts = refl

  module _ (w : Tokens N) (e : Node N) (ts : Tokens N) (n : ℕ) (k : 1 ≤ n)
      (b : match bang w ≡ none) where
    pub unary-primary :
        NoSuffix ts → Parses n parse_primary w e ts → Parses (n + 1 + 1) parse_unary w e ts
    unary-primary s h = unary-postfix w e ts (n + 1) b (postfix-primary w e ts n k s.0 s.1 h)

    pub compare-primary :
        NoSuffix ts
        → match_comparison ts ≡ none
        → Parses n parse_primary w e ts
        → Parses (n + 1 + 1 + 1) parse_compare w e ts
    compare-primary s c h = compare-unary w e ts (n + 1 + 1) (omega arith) c (unary-primary s h)

    pub and-primary :
        NoSuffix ts
        → match_comparison ts ≡ none
        → match and_and ts ≡ none
        → Parses n parse_primary w e ts
        → Parses (n + 1 + 1 + 1 + 1) parse_and w e ts
    and-primary s c a h = and-compare w e ts (n + 1 + 1 + 1) (omega arith) a (compare-primary s c h)

    pub or-primary : Ends ts → Parses n parse_primary w e ts → Parses (n + 5) parse_or w e ts
    or-primary (s, c, a, o) h =
        more_fuel (n + 1 + 1 + 1 + 1 + 1) (n + 5) parse_or w e ts (omega arith)
          (or-and w e ts (n + 1 + 1 + 1 + 1) (omega arith) o (and-primary s c a h))

  pub Ends-rparen : (ts : Tokens N) → Ends (mark p rparen ts)
  unfolding match match_comparison comparison Punct-discrete
  Ends-rparen ts = ((refl, refl), refl, refl, refl)

  pub Ends-rbrack : (ts : Tokens N) → Ends (mark p rbrack ts)
  unfolding match match_comparison comparison Punct-discrete
  Ends-rbrack ts = ((refl, refl), refl, refl, refl)

  pub Ends-comma : (ts : Tokens N) → Ends (mark p comma ts)
  unfolding match match_comparison comparison Punct-discrete
  Ends-comma ts = ((refl, refl), refl, refl, refl)

  pub Ends-eof : Ends {N = N} (eof p)
  unfolding match match_comparison
  Ends-eof = ((refl, refl), refl, refl, refl)

  pub Ends-print_args : (xs : Args N) (ts : Tokens N) → Ends (print_args p xs ts)
  Ends-print_args no_args ts = Ends-rparen ts
  Ends-print_args (arg x xs) ts = Ends-comma (print p x (print_args p xs ts))

  pub NoSuffix-symbol : (op : Op) (ts : Tokens N) → NoSuffix (mark p (symbol op) ts)
  unfolding match Punct-discrete
  NoSuffix-symbol or_op ts = (refl, refl)
  NoSuffix-symbol and_op ts = (refl, refl)
  NoSuffix-symbol eq_op ts = (refl, refl)
  NoSuffix-symbol ne_op ts = (refl, refl)
  NoSuffix-symbol lt_op ts = (refl, refl)
  NoSuffix-symbol le_op ts = (refl, refl)
  NoSuffix-symbol gt_op ts = (refl, refl)
  NoSuffix-symbol ge_op ts = (refl, refl)

  pub need-positive : (e : Node N) → 1 ≤ need e
  need-positive (literal v) = omega arith
  need-positive (ident name) = omega arith
  need-positive (member o i) = omega arith
  need-positive (negate x) = omega arith
  need-positive (binary op l r) = omega arith
  need-positive (call name args) = omega arith
