-- ===== src/Expression/Parser/Fuel.antt =====
-- The fuel of the parser: eight units for each token and a few more.
use forgelet.Prelude.{
  ℕ, zero, suc, ◌+◌, ◌*◌, ◌<◌, ◌≤◌, ◌≡◌, ◌≢◌, some, arith, Option-cases, inl, inr,
}
use forgelet.Expression.Syntax.{Op, Node}
use forgelet.Expression.Tokens.{
  Punct, Tokens, or_or, and_and, bang, dot, lbrack, rbrack, lparen, rparen, comma, word, number,
  quoted, punct, eof, tok, count, punct_key,
}
use forgelet.Expression.Parser.{
  Parsed, done, failed, out_of_fuel, ◌>>=◌, match, match_comparison, property, keyword, parse_or,
  or_loop, parse_and, and_loop, parse_compare, compare_loop, parse_unary, parse_postfix,
  postfix_loop, parse_primary, parse_args, at_end, parse_tokens,
}

module _ {N : Type 0} where
  -- The fuel did not run out, and fewer than `n` tokens are left.
  abbrev pub Within : {A : Type 0} → ℕ → Parsed (A × Tokens N) → Type 0
  Within n (done (a, ts)) = count ts < n
  Within n (failed at) = Unit
  Within n out_of_fuel = ⊥

  Within-mono : {A : Type 0} (m n : ℕ) (r : Parsed (A × Tokens N)) → Within m r → m ≤ n → Within n r
  Within-mono m n (done (a, ts)) h k = omega arith
  Within-mono m n (failed at) h k = tt
  Within-mono m n out_of_fuel h k = h

  Within-bind :
      {A B : Type 0} (m n : ℕ) (r : Parsed (A × Tokens N))
      (k : A × Tokens N → Parsed (B × Tokens N))
      → Within m r
      → ((a : A) (ts : Tokens N) → count ts < m → Within n (k (a, ts)))
      → Within n (r >>= k)
  Within-bind m n (done (a, ts)) k h t = t a ts h
  Within-bind m n (failed at) k h t = tt
  Within-bind m n out_of_fuel k h t = h

  match-count :
      (p : Punct) (ts more : Tokens N) → match p ts ≡ some more → count ts ≡ suc (count more)
  unfolding match
  match-count p ts more h = ground arith

  match_comparison-count :
      (ts : Tokens N) (op : Op) (more : Tokens N)
      → match_comparison ts ≡ some (op, more)
      → count ts ≡ suc (count more)
  unfolding match_comparison
  match_comparison-count ts op more h = ground arith

  mutual
    unfolding parse_or

    parse_or-Within :
        (f : ℕ) (ts : Tokens N) → 8 * count ts + 6 < f → Within (count ts) (parse_or f ts)
    parse_or-Within zero ts h = absurd (omega arith)
    parse_or-Within (suc f) ts h =
        Within-bind (count ts) (count ts) (parse_and f ts) _ (parse_and-Within f ts (omega arith))
          λ x rest k.
            Within-mono (suc (count rest)) (count ts) (or_loop f x rest)
              (or_loop-Within f x rest (omega arith)) k

    or_loop-Within :
        (f : ℕ) (x : Node N) (ts : Tokens N)
        → 8 * count ts < f
        → Within (suc (count ts)) (or_loop f x ts)
    or_loop-Within zero x ts h = absurd (omega arith)
    or_loop-Within (suc f) x ts h = elim (Option-cases (match or_or ts)) [
      | inl e ↦ rw (e, Within) (omega arith)
      | inr (more, e) ↦
          let c = match-count or_or ts more e in
          rw (e, Within)
            (Within-bind (count more) _ (parse_and f more) _ (parse_and-Within f more (omega arith))
              λ y rest k.
                Within-mono (suc (count rest)) _ (or_loop f _ rest)
                  (or_loop-Within f _ rest (omega arith)) (omega arith))
    ]

    parse_and-Within :
        (f : ℕ) (ts : Tokens N) → 8 * count ts + 5 < f → Within (count ts) (parse_and f ts)
    parse_and-Within zero ts h = absurd (omega arith)
    parse_and-Within (suc f) ts h =
        Within-bind (count ts) (count ts) (parse_compare f ts) _
          (parse_compare-Within f ts (omega arith))
          λ x rest k.
            Within-mono (suc (count rest)) (count ts) (and_loop f x rest)
              (and_loop-Within f x rest (omega arith)) k

    and_loop-Within :
        (f : ℕ) (x : Node N) (ts : Tokens N)
        → 8 * count ts < f
        → Within (suc (count ts)) (and_loop f x ts)
    and_loop-Within zero x ts h = absurd (omega arith)
    and_loop-Within (suc f) x ts h = elim (Option-cases (match and_and ts)) [
      | inl e ↦ rw (e, Within) (omega arith)
      | inr (more, e) ↦
          let c = match-count and_and ts more e in
          rw (e, Within)
            (Within-bind (count more) _ (parse_compare f more) _
              (parse_compare-Within f more (omega arith))
              λ y rest k.
                Within-mono (suc (count rest)) _ (and_loop f _ rest)
                  (and_loop-Within f _ rest (omega arith)) (omega arith))
    ]

    parse_compare-Within :
        (f : ℕ) (ts : Tokens N) → 8 * count ts + 4 < f → Within (count ts) (parse_compare f ts)
    parse_compare-Within zero ts h = absurd (omega arith)
    parse_compare-Within (suc f) ts h =
        Within-bind (count ts) (count ts) (parse_unary f ts) _
          (parse_unary-Within f ts (omega arith))
          λ x rest k.
            Within-mono (suc (count rest)) (count ts) (compare_loop f x rest)
              (compare_loop-Within f x rest (omega arith)) k

    compare_loop-Within :
        (f : ℕ) (x : Node N) (ts : Tokens N)
        → 8 * count ts < f
        → Within (suc (count ts)) (compare_loop f x ts)
    compare_loop-Within zero x ts h = absurd (omega arith)
    compare_loop-Within (suc f) x ts h = elim (Option-cases (match_comparison ts)) [
      | inl e ↦ rw (e, Within) (omega arith)
      | inr ((op, more), e) ↦
          let c = match_comparison-count ts op more e in
          rw (e, Within)
            (Within-bind (count more) _ (parse_unary f more) _
              (parse_unary-Within f more (omega arith))
              λ y rest k.
                Within-mono (suc (count rest)) _ (compare_loop f _ rest)
                  (compare_loop-Within f _ rest (omega arith)) (omega arith))
    ]

    parse_unary-Within :
        (f : ℕ) (ts : Tokens N) → 8 * count ts + 3 < f → Within (count ts) (parse_unary f ts)
    parse_unary-Within zero ts h = absurd (omega arith)
    parse_unary-Within (suc f) ts h = elim (Option-cases (match bang ts)) [
      | inl e ↦ rw (e, Within) (parse_postfix-Within f ts (omega arith))
      | inr (more, e) ↦
          let c = match-count bang ts more e in
          rw (e, Within)
            (Within-bind (count more) _ (parse_unary f more) _
              (parse_unary-Within f more (omega arith)) λ x rest k. omega arith)
    ]

    parse_postfix-Within :
        (f : ℕ) (ts : Tokens N) → 8 * count ts + 2 < f → Within (count ts) (parse_postfix f ts)
    parse_postfix-Within zero ts h = absurd (omega arith)
    parse_postfix-Within (suc f) ts h =
        Within-bind (count ts) (count ts) (parse_primary f ts) _
          (parse_primary-Within f ts (omega arith))
          λ x rest k.
            Within-mono (suc (count rest)) (count ts) (postfix_loop f x rest)
              (postfix_loop-Within f x rest (omega arith)) k

    postfix_loop-Within :
        (f : ℕ) (x : Node N) (ts : Tokens N)
        → 8 * count ts < f
        → Within (suc (count ts)) (postfix_loop f x ts)
    postfix_loop-Within zero x ts h = absurd (omega arith)
    postfix_loop-Within (suc f) x ts h = elim (Option-cases (match dot ts)) [
      | inr (more, e) ↦
          let c = match-count dot ts more e in
          rw (e, Within)
            (Within-bind (count more) _ (parse_primary f more) _
              (parse_primary-Within f more (omega arith))
              λ p rest k. elim (Option-cases (property p)) [
                | inl g ↦ rw g tt
                | inr (prop, g) ↦ rw g (
                    Within-mono (suc (count rest)) _ (postfix_loop f _ rest)
                      (postfix_loop-Within f _ rest (omega arith)) (omega arith))
              ])
      | inl e ↦ elim (Option-cases (match lbrack ts)) [
        | inl g ↦ rw (e, g, Within) (omega arith)
        | inr (more, g) ↦
            let c = match-count lbrack ts more g in
            rw (e, g, Within)
              (Within-bind (count more) _ (parse_or f more) _ (parse_or-Within f more (omega arith))
                λ idx rest k. elim (Option-cases (match rbrack rest)) [
                  | inl b ↦ rw b tt
                  | inr (after, b) ↦
                      let d = match-count rbrack rest after b in
                      rw b (
                        Within-mono (suc (count after)) _ (postfix_loop f _ after)
                          (postfix_loop-Within f _ after (omega arith)) (omega arith))
                ])
      ]
    ]

    parse_primary-Within :
        (f : ℕ) (ts : Tokens N) → 8 * count ts + 1 < f → Within (count ts) (parse_primary f ts)
    parse_primary-Within zero ts h = absurd (omega arith)
    parse_primary-Within (suc f) (tok (number n) at ts) h = omega arith
    parse_primary-Within (suc f) (tok (quoted s) at ts) h = omega arith
    parse_primary-Within (suc f) (tok (word name) at ts) h =
        elim (Option-cases (keyword {N = N} name)) [
          | inr (v, e) ↦ rw (e, Within) (omega arith)
          | inl e ↦ elim (Option-cases (match lparen ts)) [
            | inl g ↦ rw (e, g, Within) (omega arith)
            | inr (inner, g) ↦
                let c = match-count lparen ts inner g in
                elim (Option-cases (match rparen inner)) [
                  | inr (after, b) ↦
                      let d = match-count rparen inner after b in
                      rw (e, g, b, parse_primary) (omega arith)
                  | inl b ↦
                      rw (e, g, b, parse_primary)
                        (Within-bind (count inner) _ (parse_args f inner) _
                          (parse_args-Within f inner (omega arith)) λ args after k. omega arith)
                ]
          ]
        ]
    parse_primary-Within (suc f) (tok (punct lparen) at ts) h =
        Within-bind (count ts) _ (parse_or f ts) _ (parse_or-Within f ts (omega arith)) λ x rest k.
          elim (Option-cases (match rparen rest)) [
            | inl e ↦ rw (e, Within) tt
            | inr (after, e) ↦
                let c = match-count rparen rest after e in rw (e, Within) (omega arith)
          ]
    parse_primary-Within (suc f) (tok (punct other) at ts) h = tt
    parse_primary-Within (suc f) (eof at) h = tt

    parse_args-Within :
        (f : ℕ) (ts : Tokens N) → 8 * count ts + 7 < f → Within (count ts) (parse_args f ts)
    parse_args-Within zero ts h = absurd (omega arith)
    parse_args-Within (suc f) ts h =
        Within-bind (count ts) _ (parse_or f ts) _ (parse_or-Within f ts (omega arith)) λ x rest k.
          elim (Option-cases (match comma rest)) [
            | inr (more, e) ↦
                let c = match-count comma rest more e in
                rw (e, Within)
                  (Within-bind (count more) _ (parse_args f more) _
                    (parse_args-Within f more (omega arith)) λ xs after j. omega arith)
            | inl e ↦ elim (Option-cases (match rparen rest)) [
              | inl g ↦ rw (e, g, Within) tt
              | inr (after, g) ↦
                  let c = match-count rparen rest after g in rw (e, g, Within) (omega arith)
            ]
          ]

  Within-at_end :
      (n : ℕ) (r : Parsed (Node N × Tokens N))
      → Within n r
      → (r >>= λ (x, rest). at_end x rest) ≢ out_of_fuel
  unfolding at_end
  Within-at_end n (done (x, eof at)) h e = cc
  Within-at_end n (done (x, tok t at ts)) h e = cc
  Within-at_end n (failed at) h e = cc
  Within-at_end n out_of_fuel h e = h

  -- The fuel that `parse_tokens` hands out is enough for every list of tokens: the parser returns
  -- a tree or an error, as the program does.
  pub parse_tokens-ne-out_of_fuel : (ts : Tokens N) → parse_tokens ts ≢ out_of_fuel
  unfolding parse_tokens
  parse_tokens-ne-out_of_fuel ts =
      Within-at_end (count ts) (parse_or _ ts) (parse_or-Within _ ts (omega arith))
