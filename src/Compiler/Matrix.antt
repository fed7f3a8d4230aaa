-- ===== src/Compiler/Matrix.antt =====
-- internal/workflow/compiler/expand.go: the expansion of a matrix into job instances.
pub mod Choices
use forgelet.Prelude.{
  ℕ, Bool, true, false, Option, none, some, List, [], ◌∷◌, ◌++◌, map, Text, text, Map, lookup,
  insert, join, lookup_or, text_key, text_lt, sort, keys, is_empty, if◌then◌else◌, ◌==◌, ◌⊎◌, inl,
  inr,
}
use mathlib.Core.List.{flat_map}

-- `JobInstance`, over the type of its steps. A nil matrix is `none`.
pub record JobInstance (Step : Type 0) : Type 0 where
  pub key : Text
  pub display_name : Text
  pub runner_class : Text
  pub condition : Text
  pub depends_on : List Text
  pub matrix : Option (Map Text Text)
  pub env : Map Text Text
  pub steps : List Step

pub data MatrixError : Type 0 where
  no_values : Text → Text → MatrixError

-- The first axis without values.
unfoldable pub empty_axis : Map Text (List Text) → Option Text
empty_axis [] = none
empty_axis ((axis, values) ∷ m) =
    let rest = empty_axis m in if is_empty values then some axis else rest

-- `axis + "=" + value`
unfoldable pub part_of : Text → Text → Text
part_of axis value = axis ++ b'=' ∷ value

-- The text before the first `=` and the text behind it.
unfoldable pub split_part : Text → Text × Text
split_part [] = ([], [])
split_part (c ∷ s) =
    let (axis, value) = split_part s in if c == b'=' then ([], s) else (c ∷ axis, value)

unfoldable pub extend_combo : Text → List Text → List Text → List (List Text)
unfolding part_of
extend_combo axis values combo = map (λ value. combo ++ part_of axis value ∷ []) values

-- The loop over the sorted axes.
unfoldable pub combine : Map Text (List Text) → List Text → List (List Text) → List (List Text)
unfolding extend_combo
combine m [] combos = combos
combine m (axis ∷ axes) combos =
    combine m axes (flat_map (extend_combo axis (lookup_or [] axis m)) combos)

-- The map that the parts of a combination fill, and the values among them.
unfoldable pub fill_matrix : List Text → Map Text Text → Map Text Text
unfolding split_part
fill_matrix [] m = m
fill_matrix (part ∷ parts) m =
    let (axis, value) = split_part part in fill_matrix parts (insert axis value m)

module _ {Step : Type 0} where
  unfoldable pub instance_of : Text → JobInstance Step → List Text → List Text → JobInstance Step
  unfolding fill_matrix join
  instance_of job_id inst combo parts = record inst {
    matrix = some (fill_matrix combo []);
    key = job_id ++ text "[" ++ join (text ",") parts ++ text "]";
    display_name = inst.display_name ++ text " (" ++ join (text ", ") parts ++ text ")";
  }

  unfoldable pub expand_matrix :
      Text → Map Text (List Text) → JobInstance Step → List (JobInstance Step) ⊎ MatrixError
  unfolding empty_axis sort text_lt combine instance_of
  expand_matrix job_id matrix inst =
      if is_empty matrix
      then inl (record inst { matrix = none } ∷ [])
      else (elim (empty_axis matrix) [
        | some axis ↦ inr (no_values job_id axis)
        | none ↦ inl (
            map (λ combo. instance_of job_id inst combo (map (λ p. (split_part p).1) combo))
              (combine matrix (sort text_lt (keys matrix)) ([] ∷ [])))
      ])
