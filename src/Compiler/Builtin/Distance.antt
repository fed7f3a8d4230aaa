-- ===== src/Compiler/Builtin/Distance.antt =====
-- `editDistance` against the edits that it counts.
use mathlib.Core.Path.{subst}
use forgelet.Prelude.{
  ℕ, suc, ◌+◌, ◌≤◌, ◌≡◌, refl, sym, ap, ◌∙◌, List, [], ◌∷◌, map, Text, ◌==◌, if◌then◌else◌, arith,
  length, ◌⊎◌, inl, inr,
}
use forgelet.Compiler.Builtin.{min_int, row_from, rows_from, count_from, last_of, edit_distance}

-- `n` edits turn one text into the other: a byte is changed, dropped or added.
pub data Edits : Text → Text → ℕ → Type 0 where
  done : Edits [] [] 0
  same : (c : ℕ) {a b : Text} {n : ℕ} → Edits a b n → Edits (c ∷ a) (c ∷ b) n
  change : (c d : ℕ) {a b : Text} {n : ℕ} → Edits a b n → Edits (c ∷ a) (d ∷ b) (suc n)
  drop : (c : ℕ) {a b : Text} {n : ℕ} → Edits a b n → Edits (c ∷ a) b (suc n)
  add : (d : ℕ) {a b : Text} {n : ℕ} → Edits a b n → Edits a (d ∷ b) (suc n)

abbrev least3 : ℕ → ℕ → ℕ → ℕ
least3 a b c = min_int a b (c ∷ [])

-- The recursion on the two texts, from their first bytes.
abbrev distance : Text → Text → ℕ
distance [] b = length b
distance (x ∷ a) [] = suc (length a)
distance (x ∷ a) (y ∷ b) =
    least3 (distance a (y ∷ b) + 1) (distance (x ∷ a) b + 1)
      (distance a b + (if x == y then 0 else 1))

-- The prefixes of a text, each from its end, behind `acc`, which is the first.
abbrev longer : Text → Text → List Text
longer acc [] = []
longer acc (y ∷ b) = (y ∷ acc) ∷ longer (y ∷ acc) b

abbrev prefixes : Text → Text → List Text
prefixes acc b = acc ∷ longer acc b

-- The text from its end, before `acc`.
abbrev onto : Text → Text → Text
onto acc [] = acc
onto acc (x ∷ a) = onto (x ∷ acc) a

row_from-distance :
    (x : ℕ) (a acc b : Text)
    → row_from (distance (x ∷ a) acc) x b (map (distance a) (prefixes acc b))
      ≡ map (distance (x ∷ a)) (longer acc b)
unfolding row_from
row_from-distance x a acc [] = refl
row_from-distance x a acc (y ∷ b) =
    ap (◌∷◌ (distance (x ∷ a) (y ∷ acc))) (row_from-distance x a (y ∷ acc) b)

count_from-length : (acc b : Text) → count_from (length acc) b ≡ map (distance []) (prefixes acc b)
count_from-length acc [] = refl
count_from-length acc (y ∷ b) = ap (◌∷◌ (length acc)) (count_from-length (y ∷ acc) b)

rows_from-distance :
    (a ra b : Text)
    → rows_from (suc (length ra)) a b (map (distance ra) (prefixes [] b))
      ≡ map (distance (onto ra a)) (prefixes [] b)
unfolding rows_from
rows_from-distance [] ra b = refl
rows_from-distance (x ∷ a) ra b =
    ap (λ l. rows_from (suc (suc (length ra))) a b (suc (length ra) ∷ l))
      (row_from-distance x ra [] b)
    ∙ rows_from-distance a (x ∷ ra) b

last_of-onto : (f : Text → ℕ) (acc b : Text) → last_of (map f (prefixes acc b)) ≡ f (onto acc b)
last_of-onto f acc [] = refl
last_of-onto f acc (y ∷ b) = last_of-onto f (y ∷ acc) b

edit_distance-distance : (a b : Text) → edit_distance a b ≡ distance (onto [] a) (onto [] b)
unfolding edit_distance
edit_distance-distance a b =
    ap (λ l. last_of (rows_from 1 a b l)) (count_from-length [] b)
    ∙ ap last_of (rows_from-distance a [] b)
    ∙ last_of-onto (distance (onto [] a)) [] b

onto-onto : (acc a : Text) → onto [] (onto acc a) ≡ onto a acc
onto-onto acc [] = refl
onto-onto acc (x ∷ a) = onto-onto (x ∷ acc) a

Edits-onto :
    (ra rb a b : Text) (m n : ℕ)
    → Edits a b n
    → Edits ra rb m
    → Edits (onto ra a) (onto rb b) (n + m)
Edits-onto ra rb a b m n done e = subst (Edits _ _) (omega arith) e
Edits-onto ra rb a b m n (same c h) e = Edits-onto (c ∷ ra) (c ∷ rb) _ _ m n h (same c e)
Edits-onto ra rb a b m n (change c d {n = k} h) e =
    subst (Edits _ _) (omega arith) (Edits-onto (c ∷ ra) (d ∷ rb) _ _ (suc m) k h (change c d e))
Edits-onto ra rb a b m n (drop c {n = k} h) e =
    subst (Edits _ _) (omega arith) (Edits-onto (c ∷ ra) rb _ _ (suc m) k h (drop c e))
Edits-onto ra rb a b m n (add d {n = k} h) e =
    subst (Edits _ _) (omega arith) (Edits-onto ra (d ∷ rb) _ _ (suc m) k h (add d e))

distance-cases :
    (x y : ℕ) (a b : Text)
    → (distance (x ∷ a) (y ∷ b) ≡ suc (distance a (y ∷ b)))
      ⊎ (distance (x ∷ a) (y ∷ b) ≡ suc (distance (x ∷ a) b))
      ⊎ (distance (x ∷ a) (y ∷ b) ≡ suc (distance a b))
      ⊎ (x ≡ y) × (distance (x ∷ a) (y ∷ b) ≡ distance a b)
distance-cases x y a b = ground arith

-- The recursion counts edits, and no edits are fewer.
only_drops : (a : Text) → Edits a [] (length a)
only_drops [] = done
only_drops (x ∷ a) = drop x (only_drops a)

distance-Edits : (a b : Text) → Edits a b (distance a b)
distance-Edits [] [] = done
distance-Edits [] (y ∷ b) = add y (distance-Edits [] b)
distance-Edits (x ∷ a) [] = drop x (only_drops a)
distance-Edits (x ∷ a) (y ∷ b) = elim (distance-cases x y a b) [
  | inl m ↦ subst (Edits _ _) (sym m) (drop x (distance-Edits a (y ∷ b)))
  | inr (inl m) ↦ subst (Edits _ _) (sym m) (add y (distance-Edits (x ∷ a) b))
  | inr (inr (inl m)) ↦ subst (Edits _ _) (sym m) (change x y (distance-Edits a b))
  | inr (inr (inr (e, m))) ↦
      subst (Edits _ _) (sym m)
        (subst (λ z. Edits (x ∷ a) (z ∷ b) (distance a b)) e (same x (distance-Edits a b)))
]

distance-drop : (x : ℕ) (a b : Text) → distance (x ∷ a) b ≤ suc (distance a b)
distance-drop x [] [] = omega arith
distance-drop x (y ∷ a) [] = omega arith
distance-drop x a (y ∷ b) = ground arith

distance-add : (y : ℕ) (a b : Text) → distance a (y ∷ b) ≤ suc (distance a b)
distance-add y [] b = omega arith
distance-add y (x ∷ a) b = ground arith

distance-least : (a b : Text) (n : ℕ) → Edits a b n → distance a b ≤ n
distance-least a b n done = omega arith
distance-least a b n (same c {a = a'} {b = b'} {n = k} h) = ground (arith, distance-least a' b' k h)
distance-least a b n (change c d {a = a'} {b = b'} {n = k} h) =
    ground (arith, distance-least a' b' k h)
distance-least a b n (drop c {a = a'} {n = k} h) =
    omega (arith, distance-least a' b k h, distance-drop c a' b)
distance-least a b n (add d {b = b'} {n = k} h) =
    omega (arith, distance-least a b' k h, distance-add d a b')

-- Edits serve the reversed texts as well.
turned : (a b : Text) (n : ℕ) → Edits a b n → Edits (onto [] a) (onto [] b) n
turned a b n h = subst (Edits _ _) (omega arith) (Edits-onto [] [] a b 0 n h done)

unturned : (a b : Text) (n : ℕ) → Edits (onto [] a) (onto [] b) n → Edits a b n
unturned a b n h =
    subst (λ s. Edits s b n) (onto-onto [] a)
      (subst (λ t. Edits (onto [] (onto [] a)) t n) (onto-onto [] b)
        (turned (onto [] a) (onto [] b) n h))

-- The two rows of `editDistance` end in the length of a shortest series of edits: that many edits
-- turn the first text into the second, and no series of fewer does.
pub edit_distance-least :
    (a b : Text) → Edits a b (edit_distance a b) × ((n : ℕ) → Edits a b n → edit_distance a b ≤ n)
edit_distance-least a b =
    let e = edit_distance-distance a b in
    (
      subst (Edits a b) (sym e) (
          unturned a b (distance (onto [] a) (onto [] b)) (distance-Edits (onto [] a) (onto [] b))),
      λ n h.
          let t = distance-least (onto [] a) (onto [] b) n (turned a b n h) in omega (arith, e, t),
    )
