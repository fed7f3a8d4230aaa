-- ===== src/Expression/Value/Equality.antt =====
-- internal/workflow/expression/eval.go: `looseEqual`, `toNumber` and `compare`.
use Prim.Native.Nat.{Ordering}
use Ordering.{lt, eq, gt}
use forgelet.Prelude.{
  Bool, true, false, ◌&&◌, ◌||◌, Option, none, some, Text, is_empty, is, text_key, text_lt,
  to_lower, equal_fold, trim_space, if◌then◌else◌,
}
use forgelet.Expression.Value.{Value, Float, null, bool, num, str, arr, obj, display}

abbrev same_bool : Bool → Bool → Bool
same_bool true b = b
same_bool false true = false
same_bool false false = true

abbrev pub is_num {ℓ} : {N : Type ℓ} → Option N → Bool
is_num none = false
is_num (some n) = true

-- The order of two texts, as `strings.Compare` has it.
unfoldable pub compare_text : Text → Text → Ordering
compare_text a b = if text_lt a b then lt else (if text_lt b a then gt else eq)

module _ {N : Type 0} ⦃float : Float N⦄ where
  -- `v.Kind == KindNumber`
  abbrev pub is_number : Value N → Bool
  is_number (num n) = true
  is_number _ = false

  unfoldable pub to_number : Value N → Option N
  to_number (num n) = some n
  to_number (bool true) = some float.one
  to_number (bool false) = some float.zero
  to_number (str s) = float.parse_float (trim_space s)
  to_number _ = none

  unfoldable pub same_number : Option N → Option N → Bool
  same_number (some a) (some b) = float.same a b
  same_number _ _ = false

  -- Behind the tests of the kinds: numbers, or else the display.
  unfoldable pub mixed_equal : Value N → Value N → Bool
  unfolding to_number same_number
  mixed_equal l r =
      if is_number l || is_number r
      then same_number (to_number l) (to_number r)
      else equal_fold (display l) (display r)

  unfoldable pub loose_equal : Value N → Value N → Bool
  unfolding mixed_equal
  loose_equal null null = true
  loose_equal (bool a) (bool b) = same_bool a b
  loose_equal (num a) (num b) = float.same a b
  loose_equal (str a) (str b) = equal_fold a b
  loose_equal (arr xs) (arr ys) = is (display (arr xs)) (display (arr ys))
  loose_equal (obj xs) (obj ys) = is (display (obj xs)) (display (obj ys))
  loose_equal null (str s) = is_empty s
  loose_equal (str s) null = is_empty s
  loose_equal l r = mixed_equal l r

  unfoldable pub compare_numbers : N → N → Ordering
  compare_numbers a b = if float.below a b then lt else (if float.below b a then gt else eq)

  -- Both numbers are there, and one of the values is a number.
  abbrev pub numeric : Value N → Value N → Bool
  numeric l r = is_num (to_number l) && is_num (to_number r) && (is_number l || is_number r)

  unfoldable pub compare_as : Option N → Option N → Ordering
  unfolding compare_numbers
  compare_as (some a) (some b) = compare_numbers a b
  compare_as _ _ = eq

  unfoldable pub compare_strings : Value N → Value N → Option Ordering
  unfolding compare_text
  compare_strings (str a) (str b) = some (compare_text (to_lower a) (to_lower b))
  compare_strings _ _ = none

  unfoldable pub compare : Value N → Value N → Option Ordering
  unfolding to_number compare_as compare_strings
  compare l r =
      if numeric l r then some (compare_as (to_number l) (to_number r)) else compare_strings l r
