-- ===== src/Expression/Parser/Nodes.antt =====
-- What `parse_primary` reads of each kind of printed node, and `parse_args` of arguments.
use forgelet.Prelude.{
  ℕ, zero, suc, ◌+◌, ◌≤◌, ◌≡◌, refl, true, false, none, some, Text, Text-discrete, arith,
}
use forgelet.Expression.Errors.{Position}
use forgelet.Expression.Value.{Value, null, bool, num, str, arr, obj}
use forgelet.Expression.Syntax.{
  Op, Node, Args, or_op, and_op, eq_op, ne_op, lt_op, le_op, gt_op, ge_op, literal, ident, member,
  negate, binary, call, no_args, arg,
}
use forgelet.Expression.Tokens.{
  Tokens, Punct-discrete, punct_key, and_and, or_or, lbrack, rbrack, lparen, rparen, comma, word,
  tok,
}
use forgelet.Expression.Parser.{
  done, comparison, match, match_comparison, keyword, parse_or, parse_primary, parse_args,
}
use forgelet.Expression.Parser.Print.{symbol, value_token, Printable, mark, print, need}
use forgelet.Expression.Parser.Stages.{
  Parses, more_fuel, bind-done, unary-postfix, compare-unary, and-compare, or-and, primary-or,
  or-or, and-and, compare-compare, unary-bang, postfix-index,
}
use forgelet.Expression.Parser.Ends.{
  bang-print, unary-primary, compare-primary, and-primary, or-primary, Ends-rparen, Ends-rbrack,
  NoSuffix-symbol, need-positive,
}

module _ {N : Type 0} (p : Position) where
  -- From `parse_primary` on a node in parentheses to `parse_or` on what they hold.
  in_parentheses :
      (n m : ℕ) (w : Tokens N) (e : Node N) (ts : Tokens N)
      → n + 1 ≤ m
      → Parses n parse_or w e (mark p rparen ts)
      → Parses m parse_primary (mark p lparen w) e ts
  in_parentheses n m w e ts l h =
      more_fuel (n + 1) m parse_primary (mark p lparen w) e ts l (primary-or p p w e ts n h)

  module _ (l r : Node N) (ts : Tokens N) where
    abbrev right : Tokens N
    right = print p r (mark p rparen ts)

    binary-or :
        Parses (need l) parse_primary (print p l (mark p or_or right)) l (mark p or_or right)
        → Parses (need r) parse_primary right r (mark p rparen ts)
        → Parses
            (need l + need r + 12)
            parse_primary
            (print p (binary or_op l r) ts)
            (binary or_op l r)
            ts
    unfolding match match_comparison comparison Punct-discrete
    binary-or h k =
        let end = Ends-rparen p ts in
        in_parentheses _ _ _ _ ts (omega arith) (
          or-or (print p l (mark p or_or right)) l p right r (mark p rparen ts)
            (need l + 1 + 1 + 1 + 1) (need r + 1 + 1 + 1 + 1) (end.3)
            (and-primary p _ l _ (need l) (need-positive p l) (bang-print p l _)
              (NoSuffix-symbol p or_op right) refl refl h)
            (and-primary p _ r _ (need r) (need-positive p r) (bang-print p r _) (end.0) (end.1)
              (end.2) k))

    binary-and :
        Parses (need l) parse_primary (print p l (mark p and_and right)) l (mark p and_and right)
        → Parses (need r) parse_primary right r (mark p rparen ts)
        → Parses
            (need l + need r + 12)
            parse_primary
            (print p (binary and_op l r) ts)
            (binary and_op l r)
            ts
    unfolding match match_comparison comparison Punct-discrete
    binary-and h k =
        let end = Ends-rparen p ts in
        in_parentheses _ _ _ _ ts (omega arith) (
          or-and _ _ _ _ (omega arith) (end.3) (
            and-and (print p l (mark p and_and right)) l p right r (mark p rparen ts)
              (need l + 1 + 1 + 1) (need r + 1 + 1 + 1) (end.2)
              (compare-primary p _ l _ (need l) (need-positive p l) (bang-print p l _)
                (NoSuffix-symbol p and_op right) refl h)
              (compare-primary p _ r _ (need r) (need-positive p r) (bang-print p r _) (end.0)
                (end.1) k)))

    binary-compare :
        (op : Op)
        → comparison (symbol op) ≡ some op
        → Parses
            (need l)
            parse_primary
            (print p l (mark p (symbol op) right))
            l
            (mark p (symbol op) right)
        → Parses (need r) parse_primary right r (mark p rparen ts)
        → Parses
            (need l + need r + 12)
            parse_primary
            (print p (binary op l r) ts)
            (binary op l r)
            ts
    binary-compare op c h k =
        let end = Ends-rparen p ts in
        in_parentheses _ _ _ _ ts (omega arith) (
          or-and _ _ _ _ (omega arith) (end.3) (
            and-compare _ _ _ _ (omega arith) (end.2) (
              compare-compare (print p l (mark p (symbol op) right)) l p right r (mark p rparen ts)
                (need l + 1 + 1) (need r + 1 + 1) (symbol op) op c (end.1)
                (unary-primary p _ l _ (need l) (need-positive p l) (bang-print p l _)
                  (NoSuffix-symbol p op right) h)
                (unary-primary p _ r _ (need r) (need-positive p r) (bang-print p r _) (end.0) k))))

    pub binary-any :
        (op : Op)
        → Parses
            (need l)
            parse_primary
            (print p l (mark p (symbol op) right))
            l
            (mark p (symbol op) right)
        → Parses (need r) parse_primary right r (mark p rparen ts)
        → Parses
            (need l + need r + 12)
            parse_primary
            (print p (binary op l r) ts)
            (binary op l r)
            ts
    unfolding comparison
    binary-any or_op h k = binary-or h k
    binary-any and_op h k = binary-and h k
    binary-any eq_op h k = binary-compare eq_op refl h k
    binary-any ne_op h k = binary-compare ne_op refl h k
    binary-any lt_op h k = binary-compare lt_op refl h k
    binary-any le_op h k = binary-compare le_op refl h k
    binary-any gt_op h k = binary-compare gt_op refl h k
    binary-any ge_op h k = binary-compare ge_op refl h k

  pub primary-negate :
      (x : Node N) (ts : Tokens N)
      → Parses (need x) parse_primary (print p x (mark p rparen ts)) x (mark p rparen ts)
      → Parses (need x + 12) parse_primary (print p (negate x) ts) (negate x) ts
  primary-negate x ts h =
      let end = Ends-rparen p ts in
      in_parentheses _ _ _ _ ts (omega arith) (
        or-and _ _ _ _ (omega arith) (end.3) (
          and-compare _ _ _ _ (omega arith) (end.2) (
            compare-unary _ _ _ _ (omega arith) (end.1) (
              unary-bang p (print p x (mark p rparen ts)) x (mark p rparen ts) (need x + 1 + 1) (
                unary-primary p _ x _ (need x) (need-positive p x) (bang-print p x _) (end.0) h)))))

  pub primary-member :
      (o i : Node N) (ts : Tokens N)
      → Parses
          (need o)
          parse_primary
          (print p o (mark p lbrack (print p i (mark p rbrack (mark p rparen ts)))))
          o
          (mark p lbrack (print p i (mark p rbrack (mark p rparen ts))))
      → Parses
          (need i)
          parse_primary
          (print p i (mark p rbrack (mark p rparen ts)))
          i
          (mark p rbrack (mark p rparen ts))
      → Parses (need o + need i + 16) parse_primary (print p (member o i) ts) (member o i) ts
  primary-member o i ts h k =
      let end = Ends-rparen p ts in
      in_parentheses _ _ _ _ ts (omega arith) (
        or-and _ _ _ _ (omega arith) (end.3) (
          and-compare _ _ _ _ (omega arith) (end.2) (
            compare-unary _ _ _ _ (omega arith) (end.1) (
              unary-postfix _ _ _ _ (bang-print p o _) (
                postfix-index _ o p _ i p (mark p rparen ts) (need o) (need i + 5) (end.0.0)
                  (end.0.1) h
                  (or-primary p _ i _ (need i) (need-positive p i) (bang-print p i _)
                    (Ends-rbrack p (mark p rparen ts)) k))))))

  pub primary-word :
      (name : Text) (ts : Tokens N)
      → keyword {N = N} name ≡ none
      → match lparen ts ≡ none
      → Parses 1 parse_primary (tok (word name) p ts) (ident name) ts
  unfolding parse_or
  primary-word name ts h k zero l = absurd (omega arith)
  primary-word name ts h k (suc g) l = rw (h, k, parse_primary)

  pub primary-call :
      (name : Text) (ts after : Tokens N) (args : Args N) (n : ℕ)
      → keyword {N = N} name ≡ none
      → match rparen ts ≡ none
      → ((g : ℕ) → n ≤ g → parse_args g ts ≡ done (args, after))
      → Parses (n + 1) parse_primary (tok (word name) p (mark p lparen ts)) (call name args) after
  unfolding parse_or match Punct-discrete
  primary-call name ts after args n h k a zero l = absurd (omega arith)
  primary-call name ts after args n h k a (suc g) l =
      rw (h, k, parse_primary)
        (bind-done (parse_args g ts) _ (args, after) _ (a g (omega arith)) refl)

  pub primary-call_alone :
      (name : Text) (ts : Tokens N)
      → keyword {N = N} name ≡ none
      → Parses 3 parse_primary
          (tok (word name) p (mark p lparen (mark p rparen ts)))
          (call name no_args)
          ts
  unfolding parse_or match Punct-discrete
  primary-call_alone name ts h zero l = absurd (omega arith)
  primary-call_alone name ts h (suc g) l = rw (h, parse_primary)

  pub args-one :
      (w : Tokens N) (x : Node N) (ts : Tokens N) (n : ℕ)
      → Parses n parse_or w x (mark p rparen ts)
      → (g : ℕ) → n + 1 ≤ g
      → parse_args g w ≡ done (arg x no_args, ts)
  unfolding parse_or match Punct-discrete
  args-one w x ts n h zero l = absurd (omega arith)
  args-one w x ts n h (suc g) l =
      bind-done (parse_or g w) _ (x, mark p rparen ts) _ (h g (omega arith)) refl

  pub args-more :
      (w : Tokens N) (x : Node N) (v : Tokens N) (xs : Args N) (ts : Tokens N) (n m : ℕ)
      → Parses n parse_or w x (mark p comma v)
      → ((g : ℕ) → m ≤ g → parse_args g v ≡ done (xs, ts))
      → (g : ℕ) → n + m + 1 ≤ g
      → parse_args g w ≡ done (arg x xs, ts)
  unfolding parse_or match Punct-discrete
  args-more w x v xs ts n m h k zero l = absurd (omega arith)
  args-more w x v xs ts n m h k (suc g) l =
      bind-done (parse_or g w) _ (x, mark p comma v) _ (h g (omega arith))
        (bind-done (parse_args g v) _ (xs, ts) _ (k g (omega arith)) refl)

  pub primary-literal :
      (v : Value N) (ts : Tokens N)
      → Printable (literal v)
      → Parses 1 parse_primary (tok (value_token v) p ts) (literal v) ts
  unfolding parse_or keyword Text-discrete
  primary-literal v ts k zero l = absurd (omega arith)
  primary-literal null ts k (suc g) l = refl
  primary-literal (bool true) ts k (suc g) l = refl
  primary-literal (bool false) ts k (suc g) l = refl
  primary-literal (num n) ts k (suc g) l = refl
  primary-literal (str s) ts k (suc g) l = refl
  primary-literal (arr xs) ts k (suc g) l = absurd k
  primary-literal (obj fs) ts k (suc g) l = absurd k
