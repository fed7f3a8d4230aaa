-- ===== src/Expression/Functions.antt =====
-- internal/workflow/expression/functions.go and hashfiles.go: the functions of an expression.
use forgelet.Prelude.{
  Bool, true, false, Option, none, some, List, [], ◌∷◌, Text, text, Map, lookup, text_key, is, any,
  to_lower, has_prefix, has_suffix, contains_text, join, ◌==◌, if◌then◌else◌,
}
use forgelet.Expression.Errors.{Outcome, EngineError, ok, err, ◌>>=◌}
use forgelet.Expression.Value.{
  Value, Items, Float, bool, str, arr, no_items, item, display, display_items,
}
use forgelet.Expression.Value.Equality.{loose_equal}
use forgelet.Expression.Env.{Env, lookup_context}
use forgelet.Expression.Format.{format_github}

-- `json.Marshal` on the tree of a value, and `json.Decoder.Decode` into the tree of one; `none`
-- is an error.
pub record Json (N : Type 0) : Type 0 where
  pub marshal : Value N → Option Text
  pub decode : Text → Option (Value N)

pub data Function : Type 0 where
  hash_files success failure cancelled always contains starts_with ends_with : Function
  format join_with to_json from_json : Function

-- The map `functions`, under the names in small letters.
abbrev pub functions : Map Text Function
functions =
    (text "hashfiles", hash_files)
    ∷ (text "success", success)
    ∷ (text "failure", failure)
    ∷ (text "cancelled", cancelled)
    ∷ (text "always", always)
    ∷ (text "contains", contains)
    ∷ (text "startswith", starts_with)
    ∷ (text "endswith", ends_with)
    ∷ (text "format", format)
    ∷ (text "join", join_with)
    ∷ (text "tojson", to_json)
    ∷ (text "fromjson", from_json)
    ∷ []

unfoldable pub function_named : Text → Option Function
function_named name = lookup (to_lower name) functions

module _ {N : Type 0} where
  status_or_success : Option (Value N) → Text
  status_or_success (some (str s)) = s
  status_or_success _ = text "success"

  unfoldable pub job_status : Env N → Text
  unfolding status_or_success
  job_status env = status_or_success (lookup_context (text "__jobstatus") env)

  -- The patterns of `hashFiles`: texts without a zero byte.
  unfoldable pub patterns_of : List (Value N) → Outcome (List Text)
  patterns_of [] = ok []
  patterns_of (str s ∷ vs) =
      if any (λ c. c == 0) s
      then err EngineError.eval_error
      else (patterns_of vs >>= λ ps. ok (s ∷ ps))
  patterns_of (_ ∷ vs) = err EngineError.eval_error

  hash_with : Env N → List Text → Outcome (Value N)
  hash_with env ps = elim env.hasher [
    | none ↦ err (EngineError.not_supported (text "hashFiles() outside a workspace context"))
    | some hash ↦ elim (hash ps) [ none ↦ err EngineError.eval_error | some sum ↦ ok (str sum) ]
  ]

  unfoldable pub hash_files_fn : Env N → List (Value N) → Outcome (Value N)
  unfolding patterns_of hash_with
  hash_files_fn env [] = err EngineError.eval_error
  hash_files_fn env (v ∷ vs) = patterns_of (v ∷ vs) >>= hash_with env

module _ {N : Type 0} ⦃float : Float N⦄ ⦃json : Json N⦄ where
  -- Some item is loosely equal to the value.
  unfoldable pub has_item : Items N → Value N → Bool
  has_item no_items v = false
  has_item (item x xs) v = let rest = has_item xs v in if loose_equal x v then true else rest

  contains_fn : Value N → Value N → Bool
  unfolding has_item
  contains_fn (arr xs) v = has_item xs v
  contains_fn u v = contains_text (to_lower (display v)) (to_lower (display u))

  join_fn : Value N → Text → Text
  join_fn (arr xs) sep = join sep (display_items xs)
  join_fn v sep = display v

  text_or_error : Option Text → Outcome (Value N)
  text_or_error none = err EngineError.eval_error
  text_or_error (some s) = ok (str s)

  value_or_error : Option (Value N) → Outcome (Value N)
  value_or_error none = err EngineError.eval_error
  value_or_error (some v) = ok v

  -- The functions of the map. A wrong number of arguments is an error.
  unfoldable pub apply : Function → Env N → List (Value N) → Outcome (Value N)
  unfolding hash_files_fn job_status contains_fn join_fn text_or_error value_or_error
  apply hash_files env args = hash_files_fn env args
  apply success env args = ok (bool (is (job_status env) (text "success")))
  apply failure env args = ok (bool (is (job_status env) (text "failure")))
  apply cancelled env args = ok (bool (is (job_status env) (text "cancelled")))
  apply always env args = ok (bool true)
  apply contains env (u ∷ v ∷ []) = ok (bool (contains_fn u v))
  apply starts_with env (u ∷ v ∷ []) =
      ok (bool (has_prefix (to_lower (display v)) (to_lower (display u))))
  apply ends_with env (u ∷ v ∷ []) =
      ok (bool (has_suffix (to_lower (display v)) (to_lower (display u))))
  apply format env (v ∷ args) = format_github (display v) args >>= λ s. ok (str s)
  apply join_with env (v ∷ []) = ok (str (join_fn v (text ",")))
  apply join_with env (v ∷ sep ∷ []) = ok (str (join_fn v (display sep)))
  apply to_json env (v ∷ []) = text_or_error (json.marshal v)
  apply from_json env (v ∷ []) = value_or_error (json.decode (display v))
  apply _ env args = err EngineError.eval_error
