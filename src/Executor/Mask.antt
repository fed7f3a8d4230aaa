-- ===== src/Executor/Mask.antt =====
-- internal/runtime/executor/mask/mask.go: the registered values of a `Masker`, and `Apply`.
pub mod Hidden
use forgelet.Prelude.{
  ℕ, zero, suc, Bool, true, false, none, some, List, [], ◌∷◌, ◌++◌, Text, text, text_key, is,
  is_empty, any, length, ltb, cut_prefix, sort, if◌then◌else◌,
}

-- `m.vals`; the mutex lets one call in at a time.
pub record Masker : Type 0 where
  pub vals : List Text

abbrev pub new_masker : Masker
new_masker = record { vals = [] }

unfoldable pub add : Text → Masker → Masker
add v m =
    if is_empty v
    then m
    else (if any (λ existing. is existing v) m.vals then m else record { vals = m.vals ++ v ∷ [] })

abbrev pub stars : Text
stars = text "***"

-- `strings.ReplaceAll` of a value that is not empty by the stars: the number counts the bytes of
-- an occurrence that are still to be passed over.
unfoldable pub replace_from : Text → ℕ → Text → Text
replace_from v skip [] = []
replace_from v (suc skip) (c ∷ s) = replace_from v skip s
replace_from [] zero (c ∷ s) = c ∷ s
replace_from (b ∷ v) zero (c ∷ s) = elim (cut_prefix (b ∷ v) (c ∷ s)) [
  | none ↦ c ∷ replace_from (b ∷ v) zero s
  | some rest ↦ stars ++ replace_from (b ∷ v) (length v) s
]

-- The loop of `Apply`.
unfoldable pub mask_all : List Text → Text → Text
unfolding replace_from
mask_all [] s = s
mask_all (v ∷ vals) s = mask_all vals (if is_empty v then s else replace_from v 0 s)

-- The order of the loop: longer values first.
unfoldable pub longer : Text → Text → Bool
longer a b = ltb (length b) (length a)

unfoldable pub apply_mask : Masker → Text → Text
unfolding mask_all longer sort
apply_mask m s = mask_all (sort longer m.vals) s
