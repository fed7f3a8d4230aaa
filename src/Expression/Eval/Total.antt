-- ===== src/Expression/Eval/Total.antt =====
-- Expressions without calls, over registered contexts.
use forgelet.Prelude.{◌≡◌, refl, some, arith, not, if◌then◌else◌}
use forgelet.Expression.Errors.{Outcome, ok}
use forgelet.Expression.Value.{Value, Float, truthy, bool}
use forgelet.Expression.Env.{Env, lookup_context}
use forgelet.Expression.Syntax.{
  Op, Node, or_op, and_op, literal, ident, member, negate, binary, call,
}
use forgelet.Expression.Functions.{Json}
use forgelet.Expression.Eval.{eval, compare_op, apply_op, member_value}

module _ {N : Type 0} ⦃float : Float N⦄ ⦃json : Json N⦄ where
  -- No function is called, and each context that is named is registered.
  abbrev pub Known : Env N → Node N → Type 0
  Known env (literal v) = Unit
  Known env (ident name) = (v : Value N) × (lookup_context name env ≡ some v)
  Known env (member o p) = Known env o × Known env p
  Known env (negate x) = Known env x
  Known env (binary op l r) = Known env l × Known env r
  Known env (call name args) = ⊥

  -- The outcome is a value.
  abbrev HasValue : Outcome (Value N) → Type 0
  HasValue r = (v : Value N) × (r ≡ ok v)

  apply_op-HasValue :
      (op : Op) (v : Value N) (r : Outcome (Value N)) → HasValue r → HasValue (apply_op op v r)
  unfolding apply_op
  apply_op-HasValue or_op v r (w, e) = (if truthy v then v else w, ground arith)
  apply_op-HasValue and_op v r (w, e) = (if truthy v then w else v, ground arith)
  apply_op-HasValue op v r (w, e) = (compare_op op v w, rw e)

  -- An expression that calls no function, and names only contexts that are registered, has a
  -- value: no operator, comparison or access to a member fails, whatever the kinds of the values.
  -- That is so for an index into null too.
  pub eval-Known : (env : Env N) (e : Node N) → Known env e → (v : Value N) × (eval env e ≡ ok v)
  unfolding eval
  eval-Known env (literal v) k = (v, refl)
  eval-Known env (ident name) (v, e) = (v, ground arith)
  eval-Known env (member o p) k =
      let (v, e) = eval-Known env o k.0 in
      let (w, f) = eval-Known env p k.1 in (member_value v w, ground arith)
  eval-Known env (negate x) k =
      let (v, e) = eval-Known env x k in (bool (not (truthy v)), ground arith)
  eval-Known env (binary op l r) k =
      let (v, e) = eval-Known env l k.0 in
      rw (e, eval) (apply_op-HasValue op v (eval env r) (eval-Known env r k.1))
  eval-Known env (call name args) k = absurd k
