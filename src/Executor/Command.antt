-- ===== src/Executor/Command.antt =====
-- internal/runtime/executor/command/command.go: the workflow commands in the output of a step.
pub mod RoundTrip
use forgelet.Prelude.{
  Bool, true, false, Option, none, some, List, [], ◌∷◌, ◌++◌, is_empty, any, Text, text, text_key,
  is, cut, cut_prefix, split_byte, trim_space, to_lower, Map, insert, if◌then◌else◌,
}

-- The constants for the names.
abbrev pub known_names : List Text
known_names =
    text "add-mask"
    ∷ text "group"
    ∷ text "endgroup"
    ∷ text "warning"
    ∷ text "error"
    ∷ text "notice"
    ∷ text "debug"
    ∷ []

pub record Command : Type 0 where
  pub name : Text
  pub parameters : Map Text Text
  pub message : Text

-- One round of the loop of `parseParams`; a part without a key is passed over.
unfoldable pub add_param : Text → Map Text Text → Map Text Text
add_param part out = elim (cut (text "=") part) [
  | none ↦ out
  | some (key, value) ↦ if is_empty key then out else insert key value out
]

unfoldable pub add_params : List Text → Map Text Text → Map Text Text
unfolding add_param
add_params [] out = out
add_params (part ∷ parts) out = add_params parts (add_param part out)

unfoldable pub parse_params : Text → Map Text Text
unfolding split_byte add_params
parse_params s = add_params (split_byte b',' s) []

-- The name of the head and its parameters, as they are written.
unfoldable pub split_head : Text → Text × Map Text Text
unfolding parse_params
split_head head = elim (cut (text " ") head) [
  | none ↦ (head, [])
  | some (name, params) ↦ (name, parse_params params)
]

-- `none` for ordinary output.
unfoldable pub recognize : Text × Map Text Text → Text → Option Command
recognize (written, params) message =
    let name = to_lower (trim_space written) in
    if any (λ k. is name k) known_names
    then some (record { name = name; parameters = params; message = message })
    else none

unfoldable pub parse_command : Text → Option Command
unfolding split_head recognize
parse_command line = elim (cut_prefix (text "::") line) [
  | none ↦ none
  | some rest ↦ elim (cut (text "::") rest) [
    | none ↦ none
    | some (head, message) ↦ recognize (split_head head) message
  ]
]
