-- ===== src/Expression/Glob.antt =====
-- internal/workflow/expression/hashfiles.go: the glob patterns of `hashFiles`. `path.Match`, on one
-- segment, is the parameter `segment`; `none` stands for its error, a malformed pattern.
pub mod Matching
use mathlib.Core.List.{reverse}
use forgelet.Prelude.{
  ℕ, Bool, true, false, not, Option, none, some, List, [], ◌∷◌, is_empty, Text, text, is, text_key,
  split_byte, ◌==◌, if◌then◌else◌,
}

unfoldable pub trim_left_byte : ℕ → Text → Text
trim_left_byte b [] = []
trim_left_byte b (c ∷ s) = let rest = trim_left_byte b s in if c == b then rest else c ∷ s

-- `strings.Trim(s, "/")`
unfoldable pub trim_slashes : Text → Text
unfolding trim_left_byte
trim_slashes s = reverse (trim_left_byte b'/' (reverse (trim_left_byte b'/' s)))

abbrev pub matched : Option Bool → Bool
matched (some true) = true
matched _ = false

-- The loop over `i`: some suffix of the segments matches; an error counts as no match.
unfoldable pub some_suffix : (List Text → Option Bool) → List Text → Bool
some_suffix f [] = matched (f [])
some_suffix f (s ∷ seg) =
    let rest = some_suffix f seg in if matched (f (s ∷ seg)) then true else rest

module _ (segment : Text → Text → Option Bool) where
  unfoldable pub match_segments : List Text → List Text → Option Bool
  unfolding some_suffix
  match_segments [] seg = some (is_empty seg)
  match_segments (p ∷ pat) [] =
      let spans = some_suffix (match_segments pat) [] in
      if is p (text "**") then some spans else some false
  match_segments (p ∷ pat) (s ∷ seg) =
      let spans = some_suffix (match_segments pat) (s ∷ seg) in
      let one : Option Bool = elim (segment p s) [
        | none ↦ none
        | some b ↦ if b then match_segments pat seg else some false
      ] in
      if is p (text "**") then some spans else one

  unfoldable pub match_glob : Text → Text → Option Bool
  unfolding match_segments trim_slashes split_byte
  match_glob pattern name =
      match_segments (split_byte b'/' (trim_slashes pattern)) (split_byte b'/' (trim_slashes name))
