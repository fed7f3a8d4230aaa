-- ===== src/Expression/Value.antt =====
-- internal/workflow/expression/value.go: values, their truth and their display.
pub mod Equality
use forgelet.Prelude.{
  ℕ, Bool, true, false, not, ◌&&◌, Option, List, [], ◌∷◌, ◌++◌, map, Text, text, join, sort,
  text_lt, if◌then◌else◌,
}

-- An integer.
pub data ℤ : Type 0 where
  pos : ℕ → ℤ
  negsuc : ℕ → ℤ

-- What the engine uses of `float64`, over a type `N` of numbers, and of the packages math,
-- strconv and encoding/json on it. `same` is Go's `==` and `below` its `<`.
pub record Float (N : Type 0) : Type 0 where
  pub zero : N
  pub one : N
  pub same : N → N → Bool
  pub below : N → N → Bool
  pub is_nan : N → Bool
  pub is_inf : N → Bool
  -- `f == math.Trunc(f) && math.Abs(f) < 1e15`
  pub is_integral : N → Bool
  pub format_int : N → Text
  pub format_float : N → Text
  pub parse_float : Text → Option N
  -- `int(f)`
  pub to_int : N → ℤ

mutual
  pub data Value (N : Type 0) : Type 0 where
    null : Value N
    bool : Bool → Value N
    num : N → Value N
    str : Text → Value N
    arr : Items N → Value N
    obj : Fields N → Value N

  pub data Items (N : Type 0) : Type 0 where
    no_items : Items N
    item : Value N → Items N → Items N

  -- A map; no key comes twice.
  pub data Fields (N : Type 0) : Type 0 where
    no_fields : Fields N
    field : Text → Value N → Fields N → Fields N

-- The order of `sort.Strings` on the entries of a map.
abbrev pub by_key : Text × Text → Text × Text → Bool
by_key a b = text_lt a.0 b.0

-- `fmt.Sprintf("%s=%s", k, v)`
abbrev pub entry_text : Text × Text → Text
entry_text e = e.0 ++ (b'=' ∷ e.1)

module _ {N : Type 0} ⦃float : Float N⦄ where
  unfoldable pub truthy : Value N → Bool
  truthy null = false
  truthy (bool b) = b
  truthy (num n) = not (float.same n float.zero) && not (float.is_nan n)
  truthy (str []) = false
  truthy (str (c ∷ s)) = true
  truthy (arr xs) = true
  truthy (obj fs) = true

  unfoldable pub format_number : N → Text
  format_number n =
      if float.is_nan n
      then text "NaN"
      else (if float.is_inf n
          then text "Infinity"
          else (if float.is_integral n then float.format_int n else float.format_float n))

  -- `Value.String`
  unfoldable mutual
    pub display : Value N → Text
    display null = []
    display (bool true) = text "true"
    display (bool false) = text "false"
    display (num n) = format_number n
    display (str s) = s
    display (arr xs) = join (text ",") (display_items xs)
    display (obj fs) = join (text ",") (map entry_text (sort by_key (display_fields fs)))

    pub display_items : Items N → List Text
    display_items no_items = []
    display_items (item v xs) = display v ∷ display_items xs

    pub display_fields : Fields N → List (Text × Text)
    display_fields no_fields = []
    display_fields (field k v fs) = (k, display v) ∷ display_fields fs
