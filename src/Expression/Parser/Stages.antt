-- ===== src/Expression/Parser/Stages.antt =====
-- What each level of the parser reads, from what the level below it reads.
use forgelet.Prelude.{◌∙◌, ℕ, zero, suc, ◌+◌, ◌≤◌, ◌≡◌, refl, none, some, arith}
use forgelet.Expression.Errors.{Position}
use forgelet.Expression.Syntax.{Op, Node, or_op, and_op, member, negate, binary}
use forgelet.Expression.Tokens.{
  Punct, Tokens, Punct-discrete, bang, and_and, or_or, dot, lbrack, rbrack, lparen, rparen, punct,
  tok,
}
use forgelet.Expression.Parser.{
  Parsed, ◌>>=◌, done, comparison, match, match_comparison, parse_or, or_loop, parse_and, and_loop,
  parse_compare, compare_loop, parse_unary, parse_postfix, postfix_loop, parse_primary,
}

pub bind-done :
    {A B : Type 0} (r : Parsed A) (k : A → Parsed B) (a : A) (z : Parsed B)
    → r ≡ done a
    → k a ≡ z
    → (r >>= k) ≡ z
bind-done r k a z h j = rw h j

module _ {N : Type 0} where
  -- With `n` units of fuel or more, the parser reads the node and leaves the tokens `ts`.
  abbrev pub Parses :
      ℕ → (ℕ → Tokens N → Parsed (Node N × Tokens N)) → Tokens N → Node N → Tokens N → Type 0
  Parses n parse w e ts = (g : ℕ) → n ≤ g → parse g w ≡ done (e, ts)

  pub more_fuel :
      (n m : ℕ) (parse : ℕ → Tokens N → Parsed (Node N × Tokens N)) (w : Tokens N) (e : Node N)
      (ts : Tokens N)
      → n ≤ m
      → Parses n parse w e ts
      → Parses m parse w e ts
  more_fuel n m parse w e ts l h g k = h g (omega arith)

  -- Loops that stop.
  module _ (g : ℕ) (x : Node N) (ts : Tokens N) where
    postfix_loop-stop :
        match dot ts ≡ none → match lbrack ts ≡ none → postfix_loop (suc g) x ts ≡ done (x, ts)
    unfolding parse_or
    postfix_loop-stop d b = rw (d, b, postfix_loop)

    compare_loop-stop : match_comparison ts ≡ none → compare_loop (suc g) x ts ≡ done (x, ts)
    unfolding parse_or
    compare_loop-stop c = rw (c, compare_loop)

    and_loop-stop : match and_and ts ≡ none → and_loop (suc g) x ts ≡ done (x, ts)
    unfolding parse_or
    and_loop-stop c = rw (c, and_loop)

    or_loop-stop : match or_or ts ≡ none → or_loop (suc g) x ts ≡ done (x, ts)
    unfolding parse_or
    or_loop-stop c = rw (c, or_loop)

  module _ (w : Tokens N) (e : Node N) (ts : Tokens N) where
    pub postfix-primary :
        (n : ℕ)
        → 1 ≤ n
        → match dot ts ≡ none
        → match lbrack ts ≡ none
        → Parses n parse_primary w e ts
        → Parses (n + 1) parse_postfix w e ts
    unfolding parse_or
    postfix-primary n k d b h zero l = absurd (omega arith)
    postfix-primary n k d b h (suc zero) l = absurd (omega arith)
    postfix-primary n k d b h (suc (suc g)) l =
        bind-done (parse_primary (suc g) w) _ (e, ts) _ (h (suc g) (omega arith))
          (postfix_loop-stop g e ts d b)

    pub unary-postfix :
        (n : ℕ)
        → match bang w ≡ none
        → Parses n parse_postfix w e ts
        → Parses (n + 1) parse_unary w e ts
    unfolding parse_or
    unary-postfix n b h zero l = absurd (omega arith)
    unary-postfix n b h (suc g) l = rw (b, parse_unary) (h g (omega arith))

    pub compare-unary :
        (n : ℕ)
        → 1 ≤ n
        → match_comparison ts ≡ none
        → Parses n parse_unary w e ts
        → Parses (n + 1) parse_compare w e ts
    unfolding parse_or
    compare-unary n k c h zero l = absurd (omega arith)
    compare-unary n k c h (suc zero) l = absurd (omega arith)
    compare-unary n k c h (suc (suc g)) l =
        bind-done (parse_unary (suc g) w) _ (e, ts) _ (h (suc g) (omega arith))
          (compare_loop-stop g e ts c)

    pub and-compare :
        (n : ℕ)
        → 1 ≤ n
        → match and_and ts ≡ none
        → Parses n parse_compare w e ts
        → Parses (n + 1) parse_and w e ts
    unfolding parse_or
    and-compare n k c h zero l = absurd (omega arith)
    and-compare n k c h (suc zero) l = absurd (omega arith)
    and-compare n k c h (suc (suc g)) l =
        bind-done (parse_compare (suc g) w) _ (e, ts) _ (h (suc g) (omega arith))
          (and_loop-stop g e ts c)

    pub or-and :
        (n : ℕ)
        → 1 ≤ n
        → match or_or ts ≡ none
        → Parses n parse_and w e ts
        → Parses (n + 1) parse_or w e ts
    unfolding parse_or
    or-and n k c h zero l = absurd (omega arith)
    or-and n k c h (suc zero) l = absurd (omega arith)
    or-and n k c h (suc (suc g)) l =
        bind-done (parse_and (suc g) w) _ (e, ts) _ (h (suc g) (omega arith))
          (or_loop-stop g e ts c)

  -- A parenthesis round what `parse_or` reads.
  pub primary-or :
      (p q : Position) (w : Tokens N) (e : Node N) (ts : Tokens N) (n : ℕ)
      → Parses n parse_or w e (tok (punct rparen) q ts)
      → Parses (n + 1) parse_primary (tok (punct lparen) p w) e ts
  unfolding parse_or match Punct-discrete
  primary-or p q w e ts n h zero l = absurd (omega arith)
  primary-or p q w e ts n h (suc g) l = rw (h g (omega arith), parse_primary)

  module _ (w : Tokens N) (l : Node N) (p : Position) (v : Tokens N) (r : Node N)
      (ts : Tokens N) where
    pub or-or :
        (n m : ℕ)
        → match or_or ts ≡ none
        → Parses n parse_and w l (tok (punct or_or) p v)
        → Parses m parse_and v r ts
        → Parses (n + m + 3) parse_or w (binary or_op l r) ts
    unfolding parse_or match Punct-discrete
    or-or n m c h k zero j = absurd (omega arith)
    or-or n m c h k (suc zero) j = absurd (omega arith)
    or-or n m c h k (suc (suc zero)) j = absurd (omega arith)
    or-or n m c h k (suc (suc (suc g))) j =
        bind-done (parse_and (suc (suc g)) w) _ (l, tok (punct or_or) p v) _
          (h (suc (suc g)) (omega arith))
          (bind-done (parse_and (suc g) v) _ (r, ts) _ (k (suc g) (omega arith))
            (or_loop-stop g _ ts c))

    pub and-and :
        (n m : ℕ)
        → match and_and ts ≡ none
        → Parses n parse_compare w l (tok (punct and_and) p v)
        → Parses m parse_compare v r ts
        → Parses (n + m + 3) parse_and w (binary and_op l r) ts
    unfolding parse_or match Punct-discrete
    and-and n m c h k zero j = absurd (omega arith)
    and-and n m c h k (suc zero) j = absurd (omega arith)
    and-and n m c h k (suc (suc zero)) j = absurd (omega arith)
    and-and n m c h k (suc (suc (suc g))) j =
        bind-done (parse_compare (suc (suc g)) w) _ (l, tok (punct and_and) p v) _
          (h (suc (suc g)) (omega arith))
          (bind-done (parse_compare (suc g) v) _ (r, ts) _ (k (suc g) (omega arith))
            (and_loop-stop g _ ts c))

    compare_loop-next :
        (g : ℕ) (q : Punct) (op : Op)
        → comparison q ≡ some op
        → compare_loop (suc g) l (tok (punct q) p v)
          ≡ (parse_unary g v >>= λ (r, rest). compare_loop g (binary op l r) rest)
    unfolding parse_or match_comparison
    compare_loop-next g q op e = rw (e, compare_loop, match_comparison)

    pub compare-compare :
        (n m : ℕ) (q : Punct) (op : Op)
        → comparison q ≡ some op
        → match_comparison ts ≡ none
        → Parses n parse_unary w l (tok (punct q) p v)
        → Parses m parse_unary v r ts
        → Parses (n + m + 3) parse_compare w (binary op l r) ts
    unfolding parse_or
    compare-compare n m q op e c h k zero j = absurd (omega arith)
    compare-compare n m q op e c h k (suc zero) j = absurd (omega arith)
    compare-compare n m q op e c h k (suc (suc zero)) j = absurd (omega arith)
    compare-compare n m q op e c h k (suc (suc (suc g))) j =
        bind-done (parse_unary (suc (suc g)) w) _ (l, tok (punct q) p v) _
          (h (suc (suc g)) (omega arith))
          (compare_loop-next (suc g) q op e
            ∙ bind-done (parse_unary (suc g) v) _ (r, ts) _ (k (suc g) (omega arith))
                (compare_loop-stop g _ ts c))

  pub unary-bang :
      (p : Position) (w : Tokens N) (e : Node N) (ts : Tokens N) (n : ℕ)
      → Parses n parse_unary w e ts
      → Parses (n + 1) parse_unary (tok (punct bang) p w) (negate e) ts
  unfolding parse_or match Punct-discrete
  unary-bang p w e ts n h zero l = absurd (omega arith)
  unary-bang p w e ts n h (suc g) l =
      bind-done (parse_unary g w) _ (e, ts) _ (h g (omega arith)) refl

  pub postfix-index :
      (w : Tokens N) (o : Node N) (p : Position) (v : Tokens N) (i : Node N) (q : Position)
      (ts : Tokens N) (n m : ℕ)
      → match dot ts ≡ none
      → match lbrack ts ≡ none
      → Parses n parse_primary w o (tok (punct lbrack) p v)
      → Parses m parse_or v i (tok (punct rbrack) q ts)
      → Parses (n + m + 3) parse_postfix w (member o i) ts
  unfolding parse_or match Punct-discrete
  postfix-index w o p v i q ts n m d b h k zero j = absurd (omega arith)
  postfix-index w o p v i q ts n m d b h k (suc zero) j = absurd (omega arith)
  postfix-index w o p v i q ts n m d b h k (suc (suc zero)) j = absurd (omega arith)
  postfix-index w o p v i q ts n m d b h k (suc (suc (suc g))) j =
      bind-done (parse_primary (suc (suc g)) w) _ (o, tok (punct lbrack) p v) _
        (h (suc (suc g)) (omega arith))
        (bind-done (parse_or (suc g) v) _ (i, tok (punct rbrack) q ts) _ (k (suc g) (omega arith))
          (postfix_loop-stop g _ ts d b))
