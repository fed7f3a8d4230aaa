-- ===== src/Compiler/Matrix/Choices.antt =====
-- The product of the axes of a matrix, as a list of choices.
use mathlib.Core.List.{flat_map, flatten, append-nil, append_assoc, map-append, map-map}
use mathlib.Core.Path.{ap₂}
use forgelet.Prelude.{
  ℕ, suc, ◌*◌, ◌+◌, ◌≡◌, refl, sym, ap, ◌∙◌, false, none, List, [], ◌∷◌, ◌++◌, map, Text, Map,
  lookup_or, text_key, text_lt, sort, keys, is_empty, inl, arith, length,
}
use forgelet.Compiler.Matrix.{
  JobInstance, empty_axis, part_of, split_part, extend_combo, combine, instance_of, expand_matrix,
}

-- One choice of a value for each axis, in the order of the axes and of their values.
abbrev pub choices : Map Text (List Text) → List Text → List (List (Text × Text))
choices m [] = [] ∷ []
choices m (axis ∷ axes) =
    flat_map (λ value. map (λ c. (axis, value) ∷ c) (choices m axes)) (lookup_or [] axis m)

abbrev pub parts_of : List (Text × Text) → List Text
parts_of = map (λ c. part_of c.0 c.1)

-- The number of combinations that the axes give.
abbrev pub product : Map Text (List Text) → List Text → ℕ
product m [] = 1
product m (axis ∷ axes) = length (lookup_or [] axis m) * product m axes

-- The combinations that begin with the parts `c`.
abbrev from : Map Text (List Text) → List Text → List Text → List (List Text)
from m axes c = map (λ d. c ++ parts_of d) (choices m axes)

flat_map-append :
    (f : List Text → List (List Text)) (xs ys : List (List Text))
    → flat_map f (xs ++ ys) ≡ flat_map f xs ++ flat_map f ys
unfolding flat_map flatten
flat_map-append f [] ys = refl
flat_map-append f (x ∷ xs) ys =
    ap (◌++◌ (f x)) (flat_map-append f xs ys) ∙ sym (append_assoc (f x) _ _)

push_part :
    (axis value : Text) (c : List Text) (ds : List (List (Text × Text)))
    → map (λ d. (c ++ part_of axis value ∷ []) ++ parts_of d) ds
      ≡ map (λ d. c ++ parts_of d) (map (λ d. (axis, value) ∷ d) ds)
push_part axis value c [] = refl
push_part axis value c (d ∷ ds) =
    ap₂ ◌∷◌ (append_assoc c (part_of axis value ∷ []) (parts_of d)) (push_part axis value c ds)

extend-from :
    (m : Map Text (List Text)) (axis : Text) (axes : List Text) (vs : List Text) (c : List Text)
    → flat_map (from m axes) (extend_combo axis vs c)
      ≡ map
          (λ d. c ++ parts_of d)
          (flat_map (λ value. map (λ d. (axis, value) ∷ d) (choices m axes)) vs)
unfolding extend_combo flat_map flatten
extend-from m axis axes [] c = refl
extend-from m axis axes (v ∷ vs) c =
    ap₂ ◌++◌ (push_part axis v c (choices m axes)) (extend-from m axis axes vs c)
    ∙ sym (map-append _ (map (λ d. (axis, v) ∷ d) (choices m axes)) _)

all-from :
    (m : Map Text (List Text)) (axis : Text) (axes : List Text) (cs : List (List Text))
    → flat_map (from m axes) (flat_map (extend_combo axis (lookup_or [] axis m)) cs)
      ≡ flat_map (from m (axis ∷ axes)) cs
unfolding flat_map flatten
all-from m axis axes [] = refl
all-from m axis axes (c ∷ cs) =
    flat_map-append (from m axes) (extend_combo axis (lookup_or [] axis m) c) _
    ∙ ap₂ ◌++◌ (extend-from m axis axes (lookup_or [] axis m) c) (all-from m axis axes cs)

no_axes : (cs : List (List Text)) → flat_map (λ c. (c ++ []) ∷ []) cs ≡ cs
unfolding flat_map flatten
no_axes [] = refl
no_axes (c ∷ cs) = ap₂ ◌∷◌ (append-nil c) (no_axes cs)

combine-from :
    (m : Map Text (List Text)) (axes : List Text) (cs : List (List Text))
    → combine m axes cs ≡ flat_map (from m axes) cs
unfolding combine
combine-from m [] cs = sym (no_axes cs)
combine-from m (axis ∷ axes) cs =
    combine-from m axes (flat_map (extend_combo axis (lookup_or [] axis m)) cs)
    ∙ all-from m axis axes cs

length-append' : (xs ys : List (List (Text × Text))) → length (xs ++ ys) ≡ length xs + length ys
length-append' [] ys = omega arith
length-append' (x ∷ xs) ys = omega (arith, length-append' xs ys)

length-map' :
    (f : List (Text × Text) → List (Text × Text)) (xs : List (List (Text × Text)))
    → length (map f xs) ≡ length xs
length-map' f [] = refl
length-map' f (x ∷ xs) = ap suc (length-map' f xs)

length-axis :
    (axis : Text) (vs : List Text) (ds : List (List (Text × Text)))
    → length (flat_map (λ value. map (λ d. (axis, value) ∷ d) ds) vs) ≡ length vs * length ds
unfolding flat_map flatten
length-axis axis [] ds = omega arith
length-axis axis (v ∷ vs) ds =
    length-append' (map (λ d. (axis, v) ∷ d) ds) _
    ∙ omega (arith, length-map' (λ d. (axis, v) ∷ d) ds, length-axis axis vs ds)

length-choices :
    (m : Map Text (List Text)) (axes : List Text) → length (choices m axes) ≡ product m axes
length-choices m [] = refl
length-choices m (axis ∷ axes) =
    length-axis axis (lookup_or [] axis m) (choices m axes)
    ∙ ap (λ (n : ℕ). length (lookup_or [] axis m) * n) (length-choices m axes)

combine-choices :
    (m : Map Text (List Text)) (axes : List Text)
    → combine m axes ([] ∷ []) ≡ map parts_of (choices m axes)
combine-choices m axes = combine-from m axes ([] ∷ []) ∙ unfold flat_map flatten in append-nil _

-- A matrix with a value on each axis expands to one instance for each choice of values, in the
-- order of the sorted axes and of the values on each; there are as many as the product of the
-- numbers of values.
pub expand_matrix-choices :
    {Step : Type 0} (job_id : Text) (m : Map Text (List Text)) (inst : JobInstance Step)
    → is_empty m ≡ false
    → empty_axis m ≡ none
    → let axes = sort text_lt (keys m) in
      (expand_matrix job_id m inst
        ≡ inl (
            map
              (λ d. instance_of job_id inst (parts_of d) (map (λ p. (split_part p).1) (parts_of d)))
              (choices m axes)))
      × (length (choices m axes) ≡ product m axes)
unfolding expand_matrix
expand_matrix-choices job_id m inst h e =
    let axes = sort text_lt (keys m) in
    (
      rw (h, expand_matrix, e, combine-choices m axes)
          (ap inl (map-map _ parts_of (choices m axes))),
      length-choices m axes,
    )
