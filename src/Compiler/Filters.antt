-- ===== src/Compiler/Filters.antt =====
-- internal/workflow/compiler/compile.go: which branches a trigger matches. `path.Match` is the
-- parameter `glob`, which answers `none` for a malformed pattern.
use forgelet.Prelude.{
  ◌≡◌, refl, Bool, true, false, not, ◌&&◌, ◌||◌, Option, none, some, List, [], ◌∷◌, Text, is_empty,
  any, if◌then◌else◌, ◌==◌, arith,
}
use forgelet.Syntax.Ast.{PushTrigger}

-- A pattern that begins with `!`, without it.
unfoldable pub exclusion : Text → Option Text
exclusion [] = none
exclusion (c ∷ p) = if c == b'!' then some p else none

-- `splitExclusions`: the patterns that include, and those that exclude.
unfoldable pub split_exclusions : List Text → List Text × List Text
split_exclusions [] = ([], [])
split_exclusions (p ∷ ps) =
    let (include, exclude) = split_exclusions ps in
    elim (exclusion p) [ none ↦ (p ∷ include, exclude) | some e ↦ (include, e ∷ exclude) ]

module _ (glob : Text → Text → Option Bool) where
  unfoldable pub match_glob : Text → Text → Bool
  match_glob pattern s = elim (glob pattern s) [ none ↦ false | some m ↦ m ]

  unfoldable pub matches_filters : PushTrigger → Text → Bool
  unfolding split_exclusions
  matches_filters trigger branch =
      if any (λ p. match_glob p branch) trigger.branches_ignore
      then false
      else (let (include, exclude) = split_exclusions trigger.branches in
          if any (λ p. match_glob p branch) exclude
          then false
          else (if is_empty include && is_empty exclude
              then true
              else (if is_empty include then true else any (λ p. match_glob p branch) include)))

  -- `MatchesPush` and `MatchesPullRequest`, behind the short name of the ref.
  unfoldable pub matches_trigger : Option PushTrigger → Text → Bool
  unfolding matches_filters
  matches_trigger none branch = false
  matches_trigger (some t) branch = matches_filters t branch

  -- Whether some pattern of the list, read as an exclusion, excludes the branch.
  abbrev excluded : List Text → Text → Bool
  excluded ps branch =
      any (λ p. elim (exclusion p) [ none ↦ false | some e ↦ match_glob e branch ]) ps

  -- Whether some pattern that is no exclusion includes it.
  abbrev included : List Text → Text → Bool
  included ps branch =
      any (λ p. elim (exclusion p) [ none ↦ match_glob p branch | some e ↦ false ]) ps

  abbrev only_exclusions : List Text → Bool
  only_exclusions [] = true
  only_exclusions (p ∷ ps) =
      let rest = only_exclusions ps in elim (exclusion p) [ none ↦ false | some e ↦ rest ]

  split-excluded :
      (ps : List Text) (branch : Text)
      → any (λ p. match_glob p branch) (split_exclusions ps).1 ≡ excluded ps branch
  unfolding split_exclusions
  split-excluded [] branch = refl
  split-excluded (p ∷ ps) branch = ground (arith, split-excluded ps branch)

  split-included :
      (ps : List Text) (branch : Text)
      → any (λ p. match_glob p branch) (split_exclusions ps).0 ≡ included ps branch
  unfolding split_exclusions
  split-included [] branch = refl
  split-included (p ∷ ps) branch = ground (arith, split-included ps branch)

  split-only : (ps : List Text) → is_empty (split_exclusions ps).0 ≡ only_exclusions ps
  unfolding split_exclusions
  split-only [] = refl
  split-only (p ∷ ps) = ground (arith, split-only ps)

  -- A trigger matches a branch exactly if no ignore pattern and no exclusion matches it, and the
  -- list has an inclusion that matches it or has no inclusion at all.
  matches_filters_lem :
      (t : PushTrigger) (branch : Text)
      → matches_filters t branch ≡ (
          not (any (λ p. match_glob p branch) t.branches_ignore)
          && not (excluded t.branches branch)
          && (only_exclusions t.branches || included t.branches branch))
  unfolding matches_filters
  matches_filters_lem t branch = ground (
    arith,
    split-excluded t.branches branch,
    split-included t.branches branch,
    split-only t.branches,
  )
