-- ===== src/Prelude/Sort.antt =====
-- `sort.Slice` for a strict order in which any two elements compare, where the result is unique,
-- and `sort.SliceStable` for any order: of two elements that do not compare, insertion leaves the
-- one that came first in front.
use forgelet.Prelude.Tests.{if◌then◌else◌, All, Bool-cases}
use mathlib.Core.Logic.{inl, inr}
use mathlib.Core.Bool.{Bool}
use mathlib.Core.List.{List, [], ◌∷◌}

module _ {ℓ} {A : Type ℓ} (less : A → A → Bool) where
  unfoldable pub place : A → List A → List A
  place x [] = x ∷ []
  place x (y ∷ ys) = if less y x then y ∷ place x ys else x ∷ y ∷ ys

  unfoldable pub sort : List A → List A
  unfolding place
  sort [] = []
  sort (x ∷ xs) = place x (sort xs)

-- `All` before and after the sort.
module _ {ℓ κ} {A : Type ℓ} (less : A → A → Bool) (P : A → Type κ) where
  pub place-All : (t : A) (l : List A) → P t → All P l → All P (place less t l)
  unfolding place
  place-All t [] p h = (p, tt)
  place-All t (u ∷ l) p h = elim (Bool-cases (less u t)) [
    | inl e ↦ rw e (h.0, place-All t l p (h.1))
    | inr e ↦ rw e (p, h)
  ]

  pub sort-All : (l : List A) → All P l → All P (sort less l)
  unfolding sort
  sort-All [] h = tt
  sort-All (t ∷ l) h = place-All t (sort less l) (h.0) (sort-All l (h.1))

  pub All-place : (t : A) (l : List A) → All P (place less t l) → P t × All P l
  unfolding place
  All-place t [] h = h
  All-place t (u ∷ l) h = elim (Bool-cases (less u t)) [
    | inl e ↦ let k = (rw e at h) in let r = All-place t l (k.1) in (r.0, (k.0, r.1))
    | inr e ↦ (rw e at h)
  ]

  pub All-sort : (l : List A) → All P (sort less l) → All P l
  unfolding sort
  All-sort [] h = tt
  All-sort (t ∷ l) h = let r = All-place t (sort less l) h in (r.0, All-sort l (r.1))
