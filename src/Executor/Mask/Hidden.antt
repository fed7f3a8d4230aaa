-- ===== src/Executor/Mask/Hidden.antt =====
-- The registered values and the text behind `Apply`.
use forgelet.Prelude.{
  ℕ, zero, suc, ◌≡◌, refl, false, none, some, List, [], ◌∷◌, ◌++◌, Text, is_empty, any, All, length,
  cut_prefix, cut, contains_text, sort, sort-All, All-sort, arith, ◌==◌, Option-cases, Bool-cases,
  inl, inr,
}
use forgelet.Executor.Mask.{Masker, stars, replace_from, mask_all, longer, apply_mask}

-- A value that is not empty and has no asterisk.
abbrev pub Secret : Text → Type 0
Secret v = (is_empty v ≡ false) × (any (λ c. c == b'*') v ≡ false)

-- The value begins nowhere in the text.
abbrev Absent : Text → Text → Type 0
Absent u [] = cut_prefix u [] ≡ none
Absent u (c ∷ s) = (cut_prefix u (c ∷ s) ≡ none) × Absent u s

Absent-cut : (u s : Text) → Absent u s → cut u s ≡ none
unfolding cut
Absent-cut u [] h = rw (h, cut)
Absent-cut u (c ∷ s) h = let ih = Absent-cut u s (h.1) in rw (h.0, cut) (rw ih)

Absent-contains : (u s : Text) → Absent u s → contains_text u s ≡ false
unfolding contains_text
Absent-contains u s h = rw (Absent-cut u s h, contains_text)

-- The steps of `strings.ReplaceAll`.
module _ (d : ℕ) (v : Text) (c : ℕ) (s : Text) where
  replace_from-skip : (k : ℕ) → replace_from (d ∷ v) (suc k) (c ∷ s) ≡ replace_from (d ∷ v) k s
  unfolding replace_from
  replace_from-skip k = refl

  replace_from-keep :
      cut_prefix (d ∷ v) (c ∷ s) ≡ none
      → replace_from (d ∷ v) 0 (c ∷ s) ≡ c ∷ replace_from (d ∷ v) 0 s
  unfolding replace_from
  replace_from-keep e = rw (e, replace_from)

  replace_from-hide :
      (rest : Text)
      → cut_prefix (d ∷ v) (c ∷ s) ≡ some rest
      → replace_from (d ∷ v) 0 (c ∷ s) ≡ stars ++ replace_from (d ∷ v) (length v) s
  unfolding replace_from
  replace_from-hide rest e = rw (e, replace_from)

-- What begins with another byte than the asterisk is no prefix of the stars.
prefix-star :
    (b : ℕ) (u t : Text)
    → any (λ c. c == b'*') (b ∷ u) ≡ false
    → cut_prefix (b ∷ u) (b'*' ∷ t) ≡ none
unfolding cut_prefix
prefix-star b u t a = ground arith

prefix-cons :
    (b c : ℕ) (u s t : Text)
    → cut_prefix (b ∷ u) (c ∷ s) ≡ none
    → (cut_prefix u s ≡ none → cut_prefix u t ≡ none)
    → cut_prefix (b ∷ u) (c ∷ t) ≡ none
unfolding cut_prefix
prefix-cons b c u s t h k = elim (Bool-cases (b == c)) [
  | inl e ↦ let j = (rw e at h) in rw e (k j)
  | inr e ↦ rw e
]

-- A prefix of the masked text without an asterisk is a prefix of the text.
prefix-replace_from :
    (d : ℕ) (v u s : Text)
    → any (λ c. c == b'*') u ≡ false
    → cut_prefix u s ≡ none
    → cut_prefix u (replace_from (d ∷ v) 0 s) ≡ none
prefix-replace_from d v [] s a h = absurd (unfold cut_prefix in cc)
prefix-replace_from d v (b ∷ u) [] a h = unfold replace_from in h
prefix-replace_from d v (b ∷ u) (c ∷ s) a h = elim (Option-cases (cut_prefix (d ∷ v) (c ∷ s))) [
  | inl e ↦
      rw (replace_from-keep d v c s e)
        (prefix-cons b c u s _ h (prefix-replace_from d v u s (ground arith)))
  | inr (rest, e) ↦ rw (replace_from-hide d v c s rest e) (prefix-star b u _ a)
]

Absent-stars :
    (b : ℕ) (u t : Text)
    → any (λ c. c == b'*') (b ∷ u) ≡ false
    → Absent (b ∷ u) t
    → Absent (b ∷ u) (stars ++ t)
Absent-stars b u t a h = (prefix-star b u _ a, (prefix-star b u _ a, (prefix-star b u _ a, h)))

-- A value that is not in the text is not in the masked text.
replace_from-Absent :
    (d : ℕ) (v : Text) (b : ℕ) (u : Text) (skip : ℕ) (s : Text)
    → any (λ c. c == b'*') (b ∷ u) ≡ false
    → Absent (b ∷ u) s
    → Absent (b ∷ u) (replace_from (d ∷ v) skip s)
replace_from-Absent d v b u skip [] a h = unfold replace_from in h
replace_from-Absent d v b u (suc skip) (c ∷ s) a h =
    rw (replace_from-skip d v c s skip) (replace_from-Absent d v b u skip s a (h.1))
replace_from-Absent d v b u zero (c ∷ s) a h = elim (Option-cases (cut_prefix (d ∷ v) (c ∷ s))) [
  | inl e ↦
      let p = prefix-replace_from d v (b ∷ u) (c ∷ s) a (h.0) in
      let q = (rw (replace_from-keep d v c s e) at p) in
      rw (replace_from-keep d v c s e) (q, replace_from-Absent d v b u 0 s a (h.1))
  | inr (rest, e) ↦
      rw (replace_from-hide d v c s rest e)
        (Absent-stars b u _ a (replace_from-Absent d v b u (length v) s a (h.1)))
]

-- The masked value itself is not in the masked text.
replace_from-itself :
    (d : ℕ) (v : Text) (skip : ℕ) (s : Text)
    → any (λ c. c == b'*') (d ∷ v) ≡ false
    → Absent (d ∷ v) (replace_from (d ∷ v) skip s)
replace_from-itself d v skip [] a = unfold replace_from cut_prefix in refl
replace_from-itself d v (suc skip) (c ∷ s) a =
    rw (replace_from-skip d v c s skip) (replace_from-itself d v skip s a)
replace_from-itself d v zero (c ∷ s) a = elim (Option-cases (cut_prefix (d ∷ v) (c ∷ s))) [
  | inl e ↦
      let p = prefix-replace_from d v (d ∷ v) (c ∷ s) a e in
      let q = (rw (replace_from-keep d v c s e) at p) in
      rw (replace_from-keep d v c s e) (q, replace_from-itself d v 0 s a)
  | inr (rest, e) ↦
      rw (replace_from-hide d v c s rest e)
        (Absent-stars d v _ a (replace_from-itself d v (length v) s a))
]

mask_all-Absent :
    (vals : List Text) (u s : Text)
    → Secret u
    → All Secret vals
    → Absent u s
    → Absent u (mask_all vals s)
unfolding mask_all
mask_all-Absent [] u s w h a = a
mask_all-Absent ([] ∷ vals) u s w h a = absurd (let e = h.0.0 in cc)
mask_all-Absent ((d ∷ v) ∷ vals) [] s w h a = absurd (let e = w.0 in cc)
mask_all-Absent ((d ∷ v) ∷ vals) (b ∷ u) s w h a =
    mask_all-Absent vals (b ∷ u) (replace_from (d ∷ v) 0 s) w (h.1)
      (replace_from-Absent d v b u 0 s (w.1) a)

mask_all-hides :
    (vals : List Text) (s : Text) → All Secret vals → All (λ v. Absent v (mask_all vals s)) vals
unfolding mask_all
mask_all-hides [] s h = tt
mask_all-hides ([] ∷ vals) s h = absurd (let e = h.0.0 in cc)
mask_all-hides ((d ∷ v) ∷ vals) s h = (
  mask_all-Absent vals (d ∷ v) (replace_from (d ∷ v) 0 s) (h.0) (h.1)
      (replace_from-itself d v 0 s (h.0.1)),
  mask_all-hides vals (replace_from (d ∷ v) 0 s) (h.1),
)

All-map {ℓ} : {P Q : Text → Type ℓ} (l : List Text) → ((t : Text) → P t → Q t) → All P l → All Q l
All-map [] f h = tt
All-map (t ∷ l) f h = (f t (h.0), All-map l f (h.1))

-- If the registered values are not empty and have no asterisk, none of them occurs in a masked
-- text, however they overlap: neither one that the text had nor one that the masking of another
-- value puts together.
pub apply_mask-hides :
    (m : Masker) (s : Text)
    → All Secret m.vals
    → All (λ v. contains_text v (apply_mask m s) ≡ false) m.vals
unfolding apply_mask
apply_mask-hides m s h =
    All-map m.vals (λ v. Absent-contains v _)
      (All-sort longer (λ v. Absent v (mask_all (sort longer m.vals) s)) m.vals
        (mask_all-hides (sort longer m.vals) s (sort-All longer Secret m.vals h)))
