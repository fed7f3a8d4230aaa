-- ===== src/Expression/Eval.antt =====
-- internal/workflow/expression/eval.go: evaluation of a parsed expression.
pub mod Stable
pub mod Total
use Prim.Native.Nat.{Ordering}
use forgelet.Prelude.{
  ℕ, zero, suc, Bool, true, false, not, Option, none, some, List, [], ◌∷◌, Text, is, text_key,
  equal_fold, if◌then◌else◌,
}
use forgelet.Expression.Errors.{Outcome, EngineError, ok, err, ◌>>=◌}
use forgelet.Expression.Value.{
  ℤ, pos, negsuc, Value, Items, Fields, Float, null, bool, num, str, arr, obj, no_items, item,
  no_fields, field, truthy,
}
use forgelet.Expression.Value.Equality.{loose_equal, compare}
use forgelet.Expression.Env.{Env, lookup_context, available}
use forgelet.Expression.Syntax.{
  Op, Node, Args, or_op, and_op, eq_op, ne_op, lt_op, le_op, gt_op, ge_op, literal, ident, member,
  negate, binary, call, no_args, arg,
}
use forgelet.Expression.Functions.{Json, Function, function_named, apply}

-- `cmp < 0` and so on, on the sign of a comparison.
unfoldable pub holds : Op → Ordering → Bool
holds lt_op Ordering.lt = true
holds le_op Ordering.lt = true
holds le_op Ordering.eq = true
holds gt_op Ordering.gt = true
holds ge_op Ordering.gt = true
holds ge_op Ordering.eq = true
holds _ _ = false

ordered : Op → Option Ordering → Bool
unfolding holds
ordered op none = false
ordered op (some o) = holds op o

module _ {N : Type 0} where
  -- The value of the first key that passes the test.
  unfoldable pub find_key : (Text → Bool) → Fields N → Option (Value N)
  find_key p no_fields = none
  find_key p (field k v fs) = let rest = find_key p fs in if p k then some v else rest

  -- An exact key first, then one that is equal but for capitals. Where several are, Go takes the
  -- one that its map yields first; here it is the first of the list.
  unfoldable pub obj_key : Fields N → Text → Value N
  unfolding find_key
  obj_key fs key = elim (find_key (λ k. is k key) fs) [
    | some v ↦ v
    | none ↦ elim (find_key (λ k. equal_fold k key) fs) [ some v ↦ v | none ↦ null ]
  ]

  item_at : Items N → ℕ → Value N
  item_at no_items i = null
  item_at (item v xs) zero = v
  item_at (item v xs) (suc i) = item_at xs i

  -- An index below 0 or out of range gives null.
  unfoldable pub arr_index : Items N → ℤ → Value N
  unfolding item_at
  arr_index xs (pos i) = item_at xs i
  arr_index xs (negsuc i) = null

  context_or_error : Text → Env N → Option (Value N) → Outcome (Value N)
  context_or_error name env none = err (EngineError.context_unavailable name (available env))
  context_or_error name env (some v) = ok v

module _ {N : Type 0} ⦃float : Float N⦄ where
  unfoldable pub member_value : Value N → Value N → Value N
  unfolding obj_key arr_index
  member_value (obj fs) (str key) = obj_key fs key
  member_value (arr xs) (num n) = arr_index xs (float.to_int n)
  member_value _ _ = null

  -- The operators that evaluate both sides.
  unfoldable pub compare_op : Op → Value N → Value N → Value N
  unfolding ordered
  compare_op eq_op l r = bool (loose_equal l r)
  compare_op ne_op l r = bool (not (loose_equal l r))
  compare_op op l r = bool (ordered op (compare l r))

  -- The operators on the value of the left side; the right one is not looked at where `&&` and
  -- `||` do not evaluate it.
  unfoldable pub apply_op : Op → Value N → Outcome (Value N) → Outcome (Value N)
  unfolding compare_op
  apply_op and_op l right = if truthy l then right else ok l
  apply_op or_op l right = if truthy l then ok l else right
  apply_op op l right = right >>= λ r. ok (compare_op op l r)

module _ {N : Type 0} ⦃float : Float N⦄ ⦃json : Json N⦄ where
  -- A function that is not there is an error before its arguments are evaluated.
  call_function : Text → Env N → Option Function → Outcome (List (Value N)) → Outcome (Value N)
  call_function name env none args = err (EngineError.not_supported name)
  call_function name env (some f) args = args >>= apply f env

  unfoldable mutual
    unfolding member_value apply_op context_or_error call_function

    pub eval : Env N → Node N → Outcome (Value N)
    eval env (literal v) = ok v
    eval env (ident name) = context_or_error name env (lookup_context name env)
    eval env (member o p) = eval env o >>= λ obj. eval env p >>= λ prop. ok (member_value obj prop)
    eval env (negate x) = eval env x >>= λ v. ok (bool (not (truthy v)))
    eval env (binary op l r) = eval env l >>= λ v. apply_op op v (eval env r)
    eval env (call name args) = call_function name env (function_named name) (eval_args env args)

    pub eval_args : Env N → Args N → Outcome (List (Value N))
    eval_args env no_args = ok []
    eval_args env (arg x xs) = eval env x >>= λ v. eval_args env xs >>= λ vs. ok (v ∷ vs)
