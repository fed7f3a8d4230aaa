-- ===== src/Server/Names.antt =====
-- internal/server/server.go: references to secrets, and the names of steps.
use forgelet.Prelude.{
  ℕ, zero, suc, not, ◌||◌, Option, none, some, List, [], ◌∷◌, ◌++◌, Text, text, text_key, Map,
  insert, is_empty, cut, cut_prefix, has_prefix, has_suffix, trim_left, trim_space, is_space,
  if◌then◌else◌,
}
use mathlib.Core.List.{reverse}
use forgelet.Compiler.Compile.{Step}
use forgelet.Executor.Plan.{SecretRef}
use forgelet.Provider.Action.{last_cut}

abbrev pub secret_prefix : Text
secret_prefix = text "${{ secrets."

-- `strings.TrimPrefix` and `strings.TrimSuffix`
abbrev pub trim_prefix : Text → Text → Text
trim_prefix p s = elim (cut_prefix p s) [ none ↦ s | some rest ↦ rest ]

abbrev pub trim_suffix : Text → Text → Text
trim_suffix p s = reverse (trim_prefix (reverse p) (reverse s))

-- `secretRefName`
unfoldable pub secret_ref_name : Text → Option Text
unfolding trim_space has_prefix has_suffix cut_prefix
secret_ref_name value =
    let v = trim_space value in
    let name = trim_space (trim_suffix (text "}}") (trim_prefix secret_prefix v)) in
    if not (has_prefix secret_prefix v) || not (has_suffix (text "}}") v)
    then none
    else (if is_empty name then none else some name)

-- The loops over the entries of a map: plain values are kept, references are noted under the
-- name that `env_of` makes of the key.
unfoldable pub split_secrets :
    (Text → Text) → Map Text Text → Map Text Text → List SecretRef → Map Text Text × List SecretRef
unfolding secret_ref_name
split_secrets env_of [] plain refs = (plain, refs)
split_secrets env_of ((k, v) ∷ m) plain refs = elim (secret_ref_name v) [
  | some name ↦
      split_secrets env_of m plain
        (refs ++ record { scope = text "repository"; name = name; env = env_of k } ∷ [])
  | none ↦ split_secrets env_of m (insert k v plain) refs
]

-- The bytes before the first white space.
abbrev pub word : Text → Text
word [] = []
word (c ∷ s) = let rest = word s in if is_space c then [] else c ∷ rest

-- `strings.Fields(s)[0]`; `none` is the panic of the index.
unfoldable pub first_field : Text → Option Text
unfolding trim_left
first_field s = let t = trim_left s in if is_empty t then none else some (word t)

unfoldable pub truncate : Text → ℕ → Text
truncate s zero = []
truncate [] (suc n) = []
truncate (c ∷ s) (suc n) = c ∷ truncate s n

-- The part of an action's name that its steps are known by.
unfoldable pub base_of : Text → Text
unfolding cut
base_of action = elim (cut (text "/") action) [ none ↦ action | some (owner, base) ↦ base ]

-- `stDisplayName`; `none` is a panic.
unfoldable pub st_display_name : Step → Option Text
unfolding base_of cut last_cut first_field truncate
st_display_name st = if not (is_empty st.name) then some st.name else elim st.uses [
  | some call ↦ some (base_of call.action)
  | none ↦
      if not (is_empty st.raw_uses)
      then elim (cut (text "/") st.raw_uses) [
        | none ↦ some st.raw_uses
        | some (owner, base) ↦ elim (last_cut base) [
          | none ↦ some base
          | some (name, ref) ↦ some name
        ]
      ]
      else elim (first_field st.run) [ none ↦ none | some f ↦ some (truncate f 24) ]
]
