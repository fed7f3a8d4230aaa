-- ===== src/Compiler/Builtin.antt =====
-- internal/workflow/compiler/builtin.go: the builtin actions that a step may use. `%q` of `fmt` is
-- the parameter `quote`. Go ranges over a map in an order that it does not fix: `names` is the
-- order in which `nearest` meets the names of the registry, and the entries of `with:` come in the
-- order of the association list.
pub mod Distance
pub mod Nearest
use mathlib.Core.List.{reverse}
use forgelet.Prelude.{
  ℕ, suc, ◌+◌, Bool, true, false, not, ◌||◌, Option, none, some, List, [], ◌∷◌, ◌++◌, Text, text,
  text_key, text_lt, Map, lookup, lookup_or, insert, keys, is, any, is_empty, cut, trim_space,
  to_lower, join, ltb, ◌==◌, if◌then◌else◌, ◌⊎◌, inl, inr,
}
use forgelet.Syntax.Ast.{StepNode}

-- `Registry`: the name of each action with the inputs that it supports.
unfoldable pub registry : Map Text (List Text)
registry =
    (
      text "actions/checkout",
      text "repository"
          ∷ text "ref"
          ∷ text "token"
          ∷ text "fetch-depth"
          ∷ text "persist-credentials"
          ∷ [],
    )
    ∷ (text "actions/cache", text "key" ∷ text "restore-keys" ∷ text "path" ∷ [])
    ∷ (text "actions/upload-artifact", text "name" ∷ text "path" ∷ text "retention-days" ∷ [])
    ∷ (text "actions/download-artifact", text "name" ∷ text "path" ∷ [])
    ∷ []

pub record BuiltinCall : Type 0 where
  pub action : Text
  pub version : Text
  pub inputs : Map Text Text

pub record Warning : Type 0 where
  pub job : Text
  pub step : ℕ
  pub msg : Text

abbrev pub min_rest : ℕ → List ℕ → ℕ
min_rest m [] = m
min_rest m (r ∷ rest) = min_rest (if ltb r m then r else m) rest

-- `minInt`
abbrev pub min_int : ℕ → ℕ → List ℕ → ℕ
min_int a b rest = min_rest (if ltb b a then b else a) rest

-- The loop over `j`: `left` is `cur[j-1]`, the row begins with `prev[j-1]` and `prev[j]`.
unfoldable pub row_from : ℕ → ℕ → Text → List ℕ → List ℕ
row_from left x [] prev = []
row_from left x (y ∷ b) [] = []
row_from left x (y ∷ b) (diag ∷ []) = []
row_from left x (y ∷ b) (diag ∷ up ∷ prev) =
    let here = min_int (up + 1) (left + 1) ((diag + (if x == y then 0 else 1)) ∷ []) in
    here ∷ row_from here x b (up ∷ prev)

-- The loop over `i`.
unfoldable pub rows_from : ℕ → Text → Text → List ℕ → List ℕ
unfolding row_from
rows_from i [] b prev = prev
rows_from i (x ∷ a) b prev = rows_from (suc i) a b (i ∷ row_from i x b prev)

abbrev pub count_from : ℕ → Text → List ℕ
count_from n [] = n ∷ []
count_from n (y ∷ b) = n ∷ count_from (suc n) b

abbrev pub last_of : List ℕ → ℕ
last_of [] = 0
last_of (n ∷ []) = n
last_of (n ∷ m ∷ ns) = last_of (m ∷ ns)

unfoldable pub edit_distance : Text → Text → ℕ
unfolding rows_from
edit_distance a b = last_of (rows_from 1 a b (count_from 0 b))

-- The loop of `nearest` over the names, with `best` and `bestDist`.
unfoldable pub nearest_from : Text → List Text → Text → ℕ → Text
nearest_from s [] best dist = best
nearest_from s (n ∷ ns) best dist =
    let d = edit_distance (to_lower s) n in
    if ltb d dist then nearest_from s ns n d else nearest_from s ns best dist

unfoldable pub nearest : List Text → Text → Text
unfolding nearest_from edit_distance
nearest names s = nearest_from s names [] 3

-- One pass of the inner loop of `sortStrings`: the sorted part lies reversed.
unfoldable pub sink : Text → List Text → List Text
sink x [] = x ∷ []
sink x (y ∷ ys) = let rest = sink x ys in if text_lt x y then y ∷ rest else x ∷ y ∷ ys

unfoldable pub sort_from : List Text → List Text → List Text
unfolding sink text_lt
sort_from done [] = reverse done
sort_from done (x ∷ xs) = sort_from (sink x done) xs

unfoldable pub sort_strings : List Text → List Text
unfolding sort_from
sort_strings xs = sort_from [] xs

-- `registryNames`
unfoldable pub registry_names : List Text
unfolding registry sort_strings
registry_names = sort_strings (keys registry)

module _ (quote : Text → Text) (names : List Text) where
  -- The name and the version of an action, or the text of the error.
  unfoldable pub check_action : Text → Text → Text → (Text × Text) ⊎ Text
  unfolding nearest registry_names join
  check_action uses action version = elim (lookup action registry) [
    | some inputs ↦ inl (action, version)
    | none ↦ inr (
        text "action "
        ++ quote uses
        ++ text " is not a forgelet builtin"
        ++ (if not (is_empty (nearest names action))
            then text "; did you mean " ++ quote (nearest names action) ++ text "?"
            else text " (available: " ++ join (text ", ") registry_names ++ text ")"))
  ]

  unfoldable pub bad_uses : Text → Text
  bad_uses uses = text "uses " ++ quote uses ++ text " must be <owner>/<repo>@<ref>"

  unfoldable pub parse_uses : Text → (Text × Text) ⊎ Text
  unfolding check_action bad_uses cut
  parse_uses uses = elim (cut (text "@") (trim_space uses)) [
    | none ↦ inr (bad_uses uses)
    | some (action, version) ↦
        if is_empty action || is_empty version
        then inr (bad_uses uses)
        else check_action uses action version
  ]

  abbrev no_warning : Warning
  no_warning = record { job = []; step = 0; msg = [] }

  unfoldable pub unsupported : Text → Text → Text
  unsupported k action = text "input " ++ quote k ++ text " is not supported by " ++ action

  -- The loop over the inputs: the supported ones are kept, the last other one is warned of.
  unfoldable pub keep_inputs :
      Text
      → ℕ
      → Text
      → List Text
      → Map Text Text
      → Map Text Text
      → Warning
      → Map Text Text × Warning
  unfolding unsupported
  keep_inputs job_id idx action supported [] inputs warn = (inputs, warn)
  keep_inputs job_id idx action supported ((k, v) ∷ given) inputs warn =
      if any (λ s. is s k) supported
      then keep_inputs job_id idx action supported given (insert k v inputs) warn
      else keep_inputs job_id idx action supported given inputs
          (record { job = job_id; step = idx; msg = unsupported k action })

  unfoldable pub compile_builtin : Text → ℕ → StepNode → (BuiltinCall × Warning) ⊎ Text
  unfolding parse_uses keep_inputs
  compile_builtin job_id idx st = elim (parse_uses st.uses) [
    | inr e ↦ inr e
    | inl (action, version) ↦
        let supported = lookup_or [] action registry in
        let (inputs, warn) = keep_inputs job_id idx action supported st.inputs [] no_warning in
        inl (record { action = action; version = version; inputs = inputs }, warn)
  ]
