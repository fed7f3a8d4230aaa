-- ===== src/Expression/Glob/Matching.antt =====
-- What a list of segment patterns matches.
use forgelet.Prelude.{
  ◌≡◌, ◌≢◌, ◌↔◌, refl, Bool, true, false, Option, none, some, List, is_empty, [], ◌∷◌, Text, text,
  text_key, inl, inr, Bool-cases, Option-cases, arith, if_pos, if_neg, if◌then◌else◌, sym, ap, ◌∙◌,
}
use forgelet.Expression.Glob.{matched, some_suffix, match_segments}

module _ (segment : Text → Text → Option Bool) where
  -- `**` spans any number of whole segments; every other pattern matches one segment by `path.Match`.
  pub data Matches : List Text → List Text → Type 0 where
    end : Matches [] []
    span_none :
        {p : Text} {pat seg : List Text} → p ≡ text "**" → Matches pat seg → Matches (p ∷ pat) seg
    span_more :
        {p s : Text} {pat seg : List Text}
        → p ≡ text "**"
        → Matches (p ∷ pat) seg
        → Matches (p ∷ pat) (s ∷ seg)
    one :
        {p s : Text} {pat seg : List Text}
        → p ≢ text "**"
        → segment p s ≡ some true
        → Matches pat seg
        → Matches (p ∷ pat) (s ∷ seg)

  match_segments-nil : (seg : List Text) → match_segments segment [] seg ≡ some (is_empty seg)
  unfolding match_segments
  match_segments-nil seg = refl

  match_segments-wild :
      (p : Text) (pat seg : List Text)
      → p ≡ text "**"
      → match_segments segment (p ∷ pat) seg ≡ some (some_suffix (match_segments segment pat) seg)
  unfolding match_segments
  match_segments-wild p pat [] e = rw (if_pos _ e, match_segments)
  match_segments-wild p pat (s ∷ seg) e = rw (if_pos _ e, match_segments)

  match_segments-end :
      (p : Text) (pat : List Text)
      → p ≢ text "**"
      → match_segments segment (p ∷ pat) [] ≡ some false
  unfolding match_segments
  match_segments-end p pat n = rw (if_neg _ n, match_segments)

  match_segments-one :
      (p s : Text) (pat seg : List Text)
      → p ≢ text "**"
      → match_segments segment (p ∷ pat) (s ∷ seg) ≡ (elim (segment p s) [
        | none ↦ none
        | some b ↦ if b then match_segments segment pat seg else some false
      ])
  unfolding match_segments
  match_segments-one p s pat seg n = rw (if_neg _ n, match_segments)

  matched-true : (r : Option Bool) → matched r ≡ true → r ≡ some true
  matched-true (some true) h = refl
  matched-true (some false) h = cc
  matched-true none h = cc

  some_suffix-Matches :
      (p : Text) (pat seg : List Text)
      → p ≡ text "**"
      → ((rest : List Text) → match_segments segment pat rest ≡ some true → Matches pat rest)
      → some_suffix (match_segments segment pat) seg ≡ true
      → Matches (p ∷ pat) seg
  unfolding some_suffix
  some_suffix-Matches p pat [] e k h = span_none e (k [] (matched-true _ h))
  some_suffix-Matches p pat (s ∷ seg) e k h =
      elim (Bool-cases (matched (match_segments segment pat (s ∷ seg)))) [
        | inl m ↦ span_none e (k (s ∷ seg) (matched-true _ m))
        | inr m ↦ span_more e (some_suffix-Matches p pat seg e k (rw m at h))
      ]

  one-Matches :
      (p : Text) (pat seg : List Text)
      → p ≢ text "**"
      → ((rest : List Text) → match_segments segment pat rest ≡ some true → Matches pat rest)
      → match_segments segment (p ∷ pat) seg ≡ some true
      → Matches (p ∷ pat) seg
  one-Matches p pat [] n k h = let e = match_segments-end p pat n in absurd cc
  one-Matches p pat (s ∷ seg) n k h =
      let w = match_segments-one p s pat seg n in
      elim (Option-cases (segment p s)) [
        | inl e ↦ let v = (rw e at w) in absurd cc
        | inr (true, e) ↦ let v = (rw e at w) in one n e (k seg (sym v ∙ h))
        | inr (false, e) ↦ let v = (rw e at w) in absurd cc
      ]

  match_segments_sound :
      (pat seg : List Text) → match_segments segment pat seg ≡ some true → Matches pat seg
  unfolding match_segments
  match_segments_sound [] [] h = end
  match_segments_sound [] (s ∷ seg) h = absurd (ground arith)
  match_segments_sound (p ∷ pat) seg h = elim (text_key.dec p (text "**")) [
    | yes e ↦
        let w = match_segments-wild p pat seg e in
        some_suffix-Matches p pat seg e (match_segments_sound pat) cc
    | no n ↦ one-Matches p pat seg n (match_segments_sound pat) h
  ]

  some_suffix-here :
      (f : List Text → Option Bool) (seg : List Text) → f seg ≡ some true → some_suffix f seg ≡ true
  unfolding some_suffix
  some_suffix-here f [] h = rw h
  some_suffix-here f (s ∷ seg) h = rw h

  some_suffix-later :
      (f : List Text → Option Bool) (s : Text) (seg : List Text)
      → some_suffix f seg ≡ true
      → some_suffix f (s ∷ seg) ≡ true
  unfolding some_suffix
  some_suffix-later f s seg h = ground arith

  match_segments_complete :
      (pat seg : List Text) → Matches pat seg → match_segments segment pat seg ≡ some true
  match_segments_complete [] [] end = match_segments-nil []
  match_segments_complete [] (s ∷ seg) m = elim m [ ]
  match_segments_complete (p ∷ pat) seg (span_none e m) =
      match_segments-wild p pat seg e
      ∙ ap some (some_suffix-here _ seg (match_segments_complete pat seg m))
  match_segments_complete (p ∷ pat) (s ∷ seg) (span_more e m) =
      let w = match_segments-wild p pat seg e in
      let ih = match_segments_complete (p ∷ pat) seg m in
      match_segments-wild p pat (s ∷ seg) e ∙ ap some (some_suffix-later _ s seg cc)
  match_segments_complete (p ∷ pat) (s ∷ seg) (one n e m) =
      match_segments-one p s pat seg n ∙ rw e (match_segments_complete pat seg m)

  -- The glob matcher answers yes exactly for the paths that the pattern matches segment by segment,
  -- `**` standing for any number of segments; a malformed segment pattern never makes it say yes.
  pub match_segments-Matches :
      (pat seg : List Text) → (match_segments segment pat seg ≡ some true) ↔ Matches pat seg
  match_segments-Matches pat seg = (match_segments_sound pat seg, match_segments_complete pat seg)
