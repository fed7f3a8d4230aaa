-- ===== src/Expression/Parser/RoundTrip.antt =====
-- Printed expressions and the parser.
use forgelet.Prelude.{ℕ, ◌+◌, ◌*◌, ◌≤◌, ◌≡◌, refl, none, arith, ◌≢◌, if_neg}
use forgelet.Expression.Errors.{Position}
use forgelet.Expression.Syntax.{
  Op, Node, Args, or_op, and_op, eq_op, ne_op, lt_op, le_op, gt_op, ge_op, literal, ident, member,
  negate, binary, call, no_args, arg,
}
use forgelet.Expression.Tokens.{
  Punct, Tokens, Punct-discrete, punct_key, lbrack, rbrack, lparen, rparen, comma, eof, count,
}
use forgelet.Expression.Parser.{
  done, match, at_end, parse_or, parse_primary, parse_args, parse_tokens,
}
use forgelet.Expression.Parser.Print.{
  symbol, Printable, PrintableArgs, mark, print, print_args, need, need_args, need-count,
}
use forgelet.Expression.Parser.Stages.{Parses, more_fuel, bind-done}
use forgelet.Expression.Parser.Ends.{
  bang-print, rparen-print, Ends, or-primary, Ends-rparen, Ends-comma, Ends-eof, need-positive,
}
use forgelet.Expression.Parser.Nodes.{
  binary-any, primary-negate, primary-member, primary-word, primary-call, primary-call_alone,
  args-one, args-more, primary-literal,
}

module _ {N : Type 0} (p : Position) where
  -- Nothing that is written behind a node is an opening parenthesis.
  abbrev NoCall : Tokens N → Type 0
  NoCall ts = match lparen ts ≡ none

  NoCall-mark : (q : Punct) (ts : Tokens N) → q ≢ lparen → NoCall (mark p q ts)
  unfolding match
  NoCall-mark q ts h = rw (if_neg (punct_key.dec q lparen) h)

  NoCall-symbol : (op : Op) (ts : Tokens N) → NoCall (mark p (symbol op) ts)
  unfolding match Punct-discrete
  NoCall-symbol or_op ts = refl
  NoCall-symbol and_op ts = refl
  NoCall-symbol eq_op ts = refl
  NoCall-symbol ne_op ts = refl
  NoCall-symbol lt_op ts = refl
  NoCall-symbol le_op ts = refl
  NoCall-symbol gt_op ts = refl
  NoCall-symbol ge_op ts = refl

  or-read :
      (e : Node N) (ts : Tokens N)
      → Ends ts
      → Parses (need e) parse_primary (print p e ts) e ts
      → Parses (need e + 5) parse_or (print p e ts) e ts
  or-read e ts a h =
      or-primary p (print p e ts) e ts (need e) (need-positive p e) (bang-print p e ts) a h

  mutual
    read :
        (e : Node N) (ts : Tokens N)
        → Printable e
        → NoCall ts
        → Parses (need e) parse_primary (print p e ts) e ts
    read (literal v) ts k c = primary-literal p v ts k
    read (ident name) ts k c = primary-word p name ts k c
    read (member o i) ts k c =
        primary-member p o i ts (read o _ (k.0) (NoCall-mark lbrack _ (λ e. cc)))
          (read i _ (k.1) (NoCall-mark rbrack _ (λ e. cc)))
    read (negate x) ts k c = primary-negate p x ts (read x _ k (NoCall-mark rparen _ (λ e. cc)))
    read (binary op l r) ts k c =
        binary-any p l r ts op (read l _ (k.0) (NoCall-symbol op _))
          (read r _ (k.1) (NoCall-mark rparen _ (λ e. cc)))
    read (call name no_args) ts k c = primary-call_alone p name ts (k.0)
    read (call name (arg x xs)) ts k c = more_fuel _ _ parse_primary _ _ ts (omega arith) (
        primary-call p name (print p x (print_args p xs ts)) ts (arg x xs) (need_args (arg x xs))
          (k.0) (rparen-print p x _)
          (read_args xs ts (k.1.1) x λ rest a b. or-read x rest a (read x rest (k.1.0) b)))

    read_args :
        (xs : Args N) (ts : Tokens N)
        → PrintableArgs xs
        → (x : Node N)
        → ((rest : Tokens N)
            → Ends rest
            → NoCall rest
            → Parses (need x + 5) parse_or (print p x rest) x rest)
        → (g : ℕ) → need_args (arg x xs) ≤ g
        → parse_args g (print p x (print_args p xs ts)) ≡ done (arg x xs, ts)
    read_args no_args ts a x h g l =
        args-one p (print p x (mark p rparen ts)) x ts (need x + 5)
          (h _ (Ends-rparen p ts) (NoCall-mark rparen ts (λ e. cc))) g (omega arith)
    read_args (arg y ys) ts a x h g l =
        args-more p (print p x (print_args p (arg y ys) ts)) x (print p y (print_args p ys ts))
          (arg y ys) ts (need x + 5) (need_args (arg y ys))
          (h _ (Ends-comma p (print p y (print_args p ys ts))) (NoCall-mark comma _ (λ e. cc)))
          (read_args ys ts (a.1) y λ rest b c. or-read y rest b (read y rest (a.0) c)) g
          (omega arith)

  -- Every expression that can be written is read back as it was: the printed tokens, parentheses
  -- round every operator, access and negation, parse to the same tree.
  pub parse_tokens-print : (e : Node N) → Printable e → parse_tokens (print p e (eof p)) ≡ done e
  unfolding parse_tokens at_end match
  parse_tokens-print e k =
      let c = need-count p e (eof p) in
      bind-done (parse_or (8 * count (print p e (eof p)) + 7) (print p e (eof p))) _ (e, eof p) _
        (or-read e (eof p) (Ends-eof {N = N} p) (read e (eof p) k refl) _ (omega arith)) refl
