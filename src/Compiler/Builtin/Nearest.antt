-- ===== src/Compiler/Builtin/Nearest.antt =====
-- What `nearest` suggests.
use mathlib.Core.Path.{subst}
use mathlib.Core.List.{Memᴰ}
use forgelet.Prelude.{
  ℕ, ◌≤◌, ◌<◌, ◌≡◌, refl, sym, ap, List, [], ◌∷◌, Text, to_lower, ltb, ◌⊎◌, inl, inr, All, arith,
  Bool-cases, true, false,
}
use forgelet.Compiler.Builtin.{edit_distance, nearest_from, nearest}

-- No name is closer than `dist`.
abbrev pub AtLeast : Text → ℕ → List Text → Type 0
AtLeast s dist = All (λ n. dist ≤ edit_distance (to_lower s) n)

AtLeast-le : (s : Text) (d e : ℕ) (ns : List Text) → d ≤ e → AtLeast s e ns → AtLeast s d ns
AtLeast-le s d e [] h a = tt
AtLeast-le s d e (n ∷ ns) h a = (omega (arith, a.0), AtLeast-le s d e ns h a.1)

-- `best` stays because no name is closer than `dist`, or a name is the closest of all.
abbrev Closest : Text → List Text → Text → ℕ → Text → Type 0
Closest s ns best dist r =
    (r ≡ best) × AtLeast s dist ns
    ⊎ Memᴰ r ns
      × (edit_distance (to_lower s) r < dist)
      × AtLeast s (edit_distance (to_lower s) r) ns

taken :
    (s n : Text) (ns : List Text) (best : Text) (dist : ℕ) (r : Text)
    → ltb (edit_distance (to_lower s) n) dist ≡ true
    → Closest s ns n (edit_distance (to_lower s) n) r
    → Closest s (n ∷ ns) best dist r
taken s n ns best dist r e (inl (same, a)) =
    let d = ap (λ x. edit_distance (to_lower s) x) same in
    let a' =
      AtLeast-le s (edit_distance (to_lower s) r) (edit_distance (to_lower s) n) ns
        (omega (arith, d)) a in
    inr (Memᴰ.head same, ground (arith, d, e), (omega (arith, d), a'))
taken s n ns best dist r e (inr (m, l, a)) =
    inr (Memᴰ.tail m, ground (arith, l, e), (omega (arith, l), a))

passed :
    (s n : Text) (ns : List Text) (best : Text) (dist : ℕ) (r : Text)
    → ltb (edit_distance (to_lower s) n) dist ≡ false
    → Closest s ns best dist r
    → Closest s (n ∷ ns) best dist r
passed s n ns best dist r e (inl (same, a)) = inl (same, (ground (arith, e), a))
passed s n ns best dist r e (inr (m, l, a)) = inr (Memᴰ.tail m, l, (ground (arith, e, l), a))

nearest_from-Closest :
    (s : Text) (ns : List Text) (best : Text) (dist : ℕ)
    → Closest s ns best dist (nearest_from s ns best dist)
unfolding nearest_from
nearest_from-Closest s [] best dist = inl (refl, tt)
nearest_from-Closest s (n ∷ ns) best dist =
    elim (Bool-cases (ltb (edit_distance (to_lower s) n) dist)) [
      | inl e ↦
          let step : nearest_from s (n ∷ ns) best dist
              ≡ nearest_from s ns n (edit_distance (to_lower s) n) =
            rw e refl in
          subst (Closest s (n ∷ ns) best dist) (sym step) (
            taken s n ns best dist _ e (nearest_from-Closest s ns n (edit_distance (to_lower s) n)))
      | inr e ↦
          let step : nearest_from s (n ∷ ns) best dist ≡ nearest_from s ns best dist = rw e refl in
          subst (Closest s (n ∷ ns) best dist) (sym step)
            (passed s n ns best dist _ e (nearest_from-Closest s ns best dist))
    ]

-- In whatever order the names are met: there is no suggestion, and then each name is three edits
-- away at least, or the suggestion is a name at most two edits away and none is closer. The text
-- is compared in lower case.
nearest_lem :
    (names : List Text) (s : Text)
    → (nearest names s ≡ []) × AtLeast s 3 names
      ⊎ Memᴰ (nearest names s) names
        × (edit_distance (to_lower s) (nearest names s) ≤ 2)
        × AtLeast s (edit_distance (to_lower s) (nearest names s)) names
unfolding nearest
nearest_lem names s = elim (nearest_from-Closest s names [] 3) [
  | inl h ↦ inl h
  | inr (m, l, a) ↦ inr (m, omega (arith, l), a)
]
