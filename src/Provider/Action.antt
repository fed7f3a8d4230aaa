-- ===== src/Provider/Action.antt =====
-- internal/provider/github/action.go: references to actions, and what is known of an action.
use forgelet.Prelude.{
  ◌||◌, Option, none, some, List, [], ◌∷◌, Text, text, Map, is_empty, join, split_byte, trim_space,
  if◌then◌else◌, ◌==◌,
}

pub record CompositeActionStep : Type 0 where
  pub name : Text
  pub run : Text
  pub uses : Text
  pub inputs : Map Text Text

-- `ActionMeta`, without the names of the inputs, which nothing reads.
pub record ActionMeta : Type 0 where
  pub runs_using : Text
  pub main : Text
  pub steps : List CompositeActionStep

-- The text before the last `@`, and the text behind it.
unfoldable pub last_cut : Text → Option (Text × Text)
last_cut [] = none
last_cut (c ∷ s) = elim (last_cut s) [
  | some (before, after) ↦ some (c ∷ before, after)
  | none ↦ if c == b'@' then some ([], s) else none
]

pub record ActionRef : Type 0 where
  pub owner : Text
  pub repo : Text
  pub path : Text
  pub ref : Text

-- The reference, from the parts of the path.
unfoldable pub action_ref : Text → List Text → Option ActionRef
action_ref ref [] = none
action_ref ref (owner ∷ []) = none
action_ref ref (owner ∷ repo ∷ rest) =
    if is_empty owner || is_empty repo
    then none
    else some (record { owner = owner; repo = repo; path = join (text "/") rest; ref = ref })

-- `ParseUses`; `none` is each of its errors.
unfoldable pub parse_uses : Text → Option ActionRef
unfolding last_cut action_ref trim_space split_byte
parse_uses uses = elim (last_cut (trim_space uses)) [
  | none ↦ none
  | some (path, ref) ↦ if is_empty ref then none else action_ref ref (split_byte b'/' path)
]
