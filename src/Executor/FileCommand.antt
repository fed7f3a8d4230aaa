-- ===== src/Executor/FileCommand.antt =====
-- internal/runtime/executor/filecommand/filecommand.go: the files that a step writes for the
-- executor.
pub mod RoundTrip
pub mod Content
use forgelet.Prelude.{
  ℕ, Bool, true, false, ◌||◌, Option, none, some, List, [], ◌∷◌, ◌++◌, is_empty, Text, text,
  text_key, is, cut, join, trim_space, Map, insert, ◌==◌, if◌then◌else◌,
}

pub record Kv : Type 0 where
  pub key : Text
  pub value : Text

-- `strings.ReplaceAll(s, "\r\n", "\n")`: 13 is the carriage return, 10 the line feed.
unfoldable pub unix_lines : Text → Text
unix_lines [] = []
unix_lines (c ∷ []) = c ∷ []
unix_lines (c ∷ d ∷ s) =
    let rest = unix_lines (d ∷ s) in
    if c == 13 then (if d == 10 then rest else c ∷ rest) else c ∷ rest

-- `strings.Split(s, "\n")` behind `strings.TrimSuffix(s, "\n")`: the line feed at the very end
-- starts no line.
unfoldable pub split_on_line_feed : Text → List Text
split_on_line_feed [] = [] ∷ []
split_on_line_feed (c ∷ []) = if c == 10 then [] ∷ [] else (c ∷ []) ∷ []
split_on_line_feed (c ∷ d ∷ s) =
    let rest = split_on_line_feed (d ∷ s) in
    if c == 10 then [] ∷ rest else (elim rest [ [] ↦ (c ∷ []) ∷ [] | l ∷ ls ↦ (c ∷ l) ∷ ls ])

abbrev some_lines : Text → List Text
some_lines [] = []
some_lines (c ∷ s) = split_on_line_feed (c ∷ s)

unfoldable pub split_lines : Text → List Text
unfolding unix_lines split_on_line_feed
split_lines s = some_lines (unix_lines s)

-- The heredoc that the loop is in: the key, the delimiter and the body so far.
pub record Heredoc : Type 0 where
  pub key : Text
  pub delim : Text
  pub body : List Text

-- The key and the delimiter of a line with `<<` that is not at its start.
unfoldable pub opener : Text → Option (Text × Text)
opener line = elim (cut (text "<<") line) [
  | none ↦ none
  | some (before, after) ↦
      if is_empty before then none else some (trim_space before, trim_space after)
]

-- `NAME=value`; `none` where no `=` stands behind a first byte.
unfoldable pub assignment : Text → Option Kv
assignment line = elim (cut (text "=") line) [
  | none ↦ none
  | some (before, after) ↦
      if is_empty before then none else some (record { key = trim_space before; value = after })
]

abbrev pub before_all : Kv → Option (List Kv) → Option (List Kv)
before_all kv none = none
before_all kv (some kvs) = some (kv ∷ kvs)

-- The two loops over the lines; `none` stands for each of the errors.
unfoldable pub parse_lines : Option Heredoc → List Text → Option (List Kv)
unfolding opener assignment
parse_lines none [] = some []
parse_lines (some doc) [] = none
parse_lines none (line ∷ lines) =
    if is_empty (trim_space line) then parse_lines none lines else (elim (opener line) [
      | some (key, delim) ↦
          if is_empty key || is_empty delim
          then none
          else parse_lines (some (record { key = key; delim = delim; body = [] })) lines
      | none ↦ elim (assignment line) [
        | none ↦ none
        | some kv ↦ before_all kv (parse_lines none lines)
      ]
    ])
parse_lines (some doc) (line ∷ lines) =
    if is line doc.delim
    then before_all (record { key = doc.key; value = join (10 ∷ []) doc.body })
        (parse_lines none lines)
    else parse_lines (some (record doc { body = doc.body ++ line ∷ [] })) lines

unfoldable pub parse_kv_file : Text → Option (List Kv)
unfolding split_lines parse_lines
parse_kv_file content = parse_lines none (split_lines content)

-- `Apply`: later entries overwrite earlier ones.
unfoldable pub apply_kvs : Map Text Text → List Kv → Map Text Text
apply_kvs env [] = env
apply_kvs env (kv ∷ kvs) = apply_kvs (insert kv.key kv.value env) kvs

unfoldable pub filled_lines : List Text → List Text
filled_lines [] = []
filled_lines (line ∷ lines) =
    let rest = filled_lines lines in if is_empty (trim_space line) then rest else line ∷ rest

unfoldable pub parse_path_file : Text → List Text
unfolding split_lines filled_lines
parse_path_file content = filled_lines (split_lines content)
