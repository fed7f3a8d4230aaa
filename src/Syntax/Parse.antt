-- ===== src/Syntax/Parse.antt =====
-- internal/workflow/syntax/parse.go: from the node tree of a document to the AST. What a function
-- adds to `p.diags` is the second part of its result. `%q` and `%d` of fmt are `quote` and `decimal`.
use forgelet.Prelude.{
  ℕ, Bool, true, false, not, ◌&&◌, ◌||◌, List, [], ◌∷◌, ◌++◌, Text, text, text_key, Map, insert, is,
  any, leb, if◌then◌else◌, ◌==◌,
}
use forgelet.Syntax.Ast.{Position, Diagnostic, PushTrigger}
use forgelet.Syntax.Node.{
  document, sequence, mapping, scalar, alias, Node, Nodes, end, more, kind_of, tag_of, value_of,
  line_of, column_of, content_of,
}

-- A result with the diagnostics that it adds.
abbrev pub Noted : Type 0 → Type 0
Noted A = A × List Diagnostic

abbrev pub subset_message : Text
subset_message = text "field is not in the supported subset"

-- `unwrapDoc`
unfoldable pub unwrap_doc : Node → Node
unwrap_doc n = elim (kind_of n) [
  | document ↦ elim (content_of n) [ end ↦ n | more first rest ↦ first ]
  | sequence ↦ n
  | mapping ↦ n
  | scalar ↦ n
  | alias ↦ n
]

abbrev is_letter : ℕ → Bool
is_letter c = leb b'a' c && leb c b'z' || leb b'A' c && leb c b'Z' || c == b'_'

abbrev is_tail : ℕ → Bool
is_tail c = is_letter c || leb b'0' c && leb c b'9' || c == b'-'

abbrev all_tail : Text → Bool
all_tail [] = true
all_tail (c ∷ s) = is_tail c && all_tail s

-- `isIdentifier`, on bytes.
unfoldable pub is_identifier : Text → Bool
is_identifier [] = false
is_identifier (c ∷ s) = is_letter c && all_tail s

-- The condition that `scalarString` refuses.
abbrev pub is_typed : Text → Bool
is_typed tag = is tag (text "!!int") || is tag (text "!!bool") || is tag (text "!!float")

abbrev pub position : Node → Position
position n = record { line = line_of n; column = column_of n }

abbrev pub no_push : PushTrigger
no_push = record { branches = []; branches_ignore = [] }

module _ (file : Text) (quote : Text → Text) (decimal : ℕ → Text) where
  abbrev pub fail : Node → Text → Text → Diagnostic
  fail n path msg = record {
    file = file;
    line = line_of n;
    column = column_of n;
    path = path;
    message = msg;
  }

  unfoldable pub kind_name : Node → Text
  kind_name n = elim (kind_of n) [
    | mapping ↦ text "mapping"
    | sequence ↦ text "sequence"
    | scalar ↦ text "scalar (" ++ quote (value_of n) ++ text ")"
    | document ↦ text "alias/other"
    | alias ↦ text "alias/other"
  ]

  -- The loop of `mapping`, with the value that `visit` changes.
  unfoldable pub walk_pairs :
      {S : Type 0} → Text → List Text → (Text → Node → Node → S → Noted S) → Nodes → S → Noted S
  walk_pairs path allowed visit end s = (s, [])
  walk_pairs path allowed visit (more key end) s = (s, [])
  walk_pairs path allowed visit (more key (more value rest)) s =
      if not (any (λ a. is a (value_of key)) allowed)
      then (let (t, ds) = walk_pairs path allowed visit rest s in
          (t, fail key path (quote (value_of key) ++ text " " ++ subset_message) ∷ ds))
      else (let (u, es) = visit (value_of key) key value s in
          let (t, ds) = walk_pairs path allowed visit rest u in (t, es ++ ds))

  -- `mapping`
  unfoldable pub walk_mapping :
      {S : Type 0} → Node → Text → List Text → (Text → Node → Node → S → Noted S) → S → Noted S
  unfolding walk_pairs kind_name
  walk_mapping {S = S} n path allowed visit s =
      let walked : Noted S = walk_pairs path allowed visit (content_of n) s in
      let refused : Noted S =
        (s, fail n path (text "expected mapping, got " ++ kind_name n) ∷ []) in
      elim (kind_of n) [
        | mapping ↦ walked
        | document ↦ refused
        | sequence ↦ refused
        | scalar ↦ refused
        | alias ↦ refused
      ]

  unfoldable pub scalar_string : Node → Text → Noted Text
  unfolding kind_name
  scalar_string n path =
      let refused : Noted Text =
        ([], fail n path (text "expected string, got " ++ kind_name n) ∷ []) in
      elim (kind_of n) [
        | scalar ↦ if is_typed (tag_of n) then refused else (value_of n, [])
        | document ↦ refused
        | sequence ↦ refused
        | mapping ↦ refused
        | alias ↦ refused
      ]

  unfoldable pub condition_string : Node → Text → Noted Text
  unfolding scalar_string
  condition_string n path =
      if is (tag_of n) (text "!!bool") then (value_of n, []) else scalar_string n path

  -- The loop of `stringSeq`.
  unfoldable pub strings_of : Nodes → Text → Noted (List Text)
  unfolding scalar_string
  strings_of end path = ([], [])
  strings_of (more n rest) path =
      let (s, ds) = scalar_string n path in
      let (ss, es) = strings_of rest path in (s ∷ ss, ds ++ es)

  unfoldable pub string_seq : Node → Text → Noted (List Text)
  unfolding strings_of
  string_seq n path =
      let refused : Noted (List Text) =
        ([], fail n path (text "expected sequence of strings") ∷ []) in
      elim (kind_of n) [
        | sequence ↦ strings_of (content_of n) path
        | document ↦ refused
        | mapping ↦ refused
        | scalar ↦ refused
        | alias ↦ refused
      ]

  -- The loop of `envMap`.
  unfoldable pub env_pairs : Nodes → Text → Map Text Text → Noted (Map Text Text)
  unfolding scalar_string
  env_pairs end path env = (env, [])
  env_pairs (more key end) path env = (env, [])
  env_pairs (more key (more value rest)) path env =
      let (s, ds) = scalar_string value (path ++ text "." ++ value_of key) in
      let (out, es) = env_pairs rest path (insert (value_of key) s env) in (out, ds ++ es)

  unfoldable pub env_map : Node → Text → Noted (Map Text Text)
  unfolding env_pairs
  env_map n path =
      let refused : Noted (Map Text Text) =
        ([], fail n path (text "expected mapping of env name to string value") ∷ []) in
      elim (kind_of n) [
        | mapping ↦ env_pairs (content_of n) path []
        | document ↦ refused
        | sequence ↦ refused
        | scalar ↦ refused
        | alias ↦ refused
      ]

  unfoldable pub parse_needs : Node → Text → Noted (List Text)
  unfolding scalar_string string_seq
  parse_needs n path = elim (kind_of n) [
    | scalar ↦ (let (s, ds) = scalar_string n path in (s ∷ [], ds))
    | document ↦ string_seq n path
    | sequence ↦ string_seq n path
    | mapping ↦ string_seq n path
    | alias ↦ string_seq n path
  ]

  -- The axes of a matrix.
  unfoldable pub axes_of : Nodes → Text → Map Text (List Text) → Noted (Map Text (List Text))
  unfolding string_seq is_identifier
  axes_of end path m = (m, [])
  axes_of (more axis end) path m = (m, [])
  axes_of (more axis (more values rest)) path m =
      if not (is_identifier (value_of axis))
      then (let (out, es) = axes_of rest path m in
          (out, fail axis (path ++ text ".matrix") (text "axis names must be identifiers") ∷ es))
      else (let (vs, ds) = string_seq values (path ++ text ".matrix." ++ value_of axis) in
          let (out, es) = axes_of rest path (insert (value_of axis) vs m) in (out, ds ++ es))

  unfoldable pub visit_matrix :
      Text → Text → Node → Node → Map Text (List Text) → Noted (Map Text (List Text))
  unfolding axes_of
  visit_matrix path name key v m =
      let refused : Noted (Map Text (List Text)) = (
        m,
        fail v (path ++ text ".matrix") (text "expected mapping of axis name to value list") ∷ [],
      ) in
      elim (kind_of v) [
        | mapping ↦ axes_of (content_of v) path []
        | document ↦ refused
        | sequence ↦ refused
        | scalar ↦ refused
        | alias ↦ refused
      ]

  unfoldable pub parse_strategy : Node → Text → Noted (Map Text (List Text))
  unfolding visit_matrix walk_mapping
  parse_strategy n path =
      let refused : Noted (Map Text (List Text)) =
        ([], fail n path (text "expected mapping with a matrix key") ∷ []) in
      elim (kind_of n) [
        | mapping ↦ walk_mapping n path (text "matrix" ∷ []) (visit_matrix path) []
        | document ↦ refused
        | sequence ↦ refused
        | scalar ↦ refused
        | alias ↦ refused
      ]
