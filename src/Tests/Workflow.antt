-- ===== src/Tests/Workflow.antt =====
-- Matrices at concrete inputs.
use forgelet.Prelude.{
  ◌≡◌, refl, Text, text, Map, List, [], ◌∷◌, none, map, inl, length, sort, text_lt, keys, text_key,
}
use forgelet.Compiler.Matrix.{JobInstance, empty_axis, expand_matrix, instance_of, split_part}
use forgelet.Compiler.Matrix.Choices.{choices, parts_of, product, expand_matrix-choices}

abbrev matrix : Map Text (List Text)
matrix = (text "os", text "linux" ∷ text "mac" ∷ []) ∷ (text "go", text "1" ∷ text "2" ∷ []) ∷ []

abbrev job : JobInstance Text
job = record {
  key = text "build";
  display_name = text "Build";
  runner_class = text "small";
  condition = [];
  depends_on = [];
  matrix = none;
  env = [];
  steps = text "make" ∷ [];
}

expand_matrix-choices_example :
    let axes = sort text_lt (keys matrix) in
    (expand_matrix (text "build") matrix job
      ≡ inl (
          map
            (λ d.
              instance_of
                (text "build")
                job
                (parts_of d)
                (map (λ p. (split_part p).1) (parts_of d)))
            (choices matrix axes)))
    × (length (choices matrix axes) ≡ product matrix axes)
unfolding empty_axis
expand_matrix-choices_example = expand_matrix-choices (text "build") matrix job refl refl
