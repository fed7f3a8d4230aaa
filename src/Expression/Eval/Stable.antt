-- ===== src/Expression/Eval/Stable.antt =====
-- Evaluation under another spelling of the names, and with a further context.
use forgelet.Prelude.{
  ◌≡◌, ◌≢◌, refl, ap, ◌∙◌, if_neg, none, some, List, [], ◌∷◌, Text, text, to_lower, text_key,
  lookup, arith, Option-cases, inl, inr, Bool, true, false, if◌then◌else◌,
}
use forgelet.Expression.Errors.{Outcome, ok, err, ◌>>=◌}
use forgelet.Expression.Value.{Value, Float, truthy}
use forgelet.Expression.Env.{Env, lookup_context, with_context, lookup_context-with_context}
use forgelet.Expression.Syntax.{
  Op, Node, Args, or_op, and_op, literal, ident, member, negate, binary, call, no_args, arg,
}
use forgelet.Expression.Functions.{
  Json, Function, functions, success, failure, cancelled, hash_files, function_named, apply,
  job_status, hash_files_fn,
}
use forgelet.Expression.Eval.{eval, eval_args, call_function, apply_op}

-- Every context and function name of the expression, spelled anew.
module _ {N : Type 0} (spell : Text → Text) where
  unfoldable mutual
    pub respell : Node N → Node N
    respell (literal v) = literal v
    respell (ident name) = ident (spell name)
    respell (member o p) = member (respell o) (respell p)
    respell (negate x) = negate (respell x)
    respell (binary op l r) = binary op (respell l) (respell r)
    respell (call name args) = call (spell name) (respell_args args)

    pub respell_args : Args N → Args N
    respell_args no_args = no_args
    respell_args (arg x xs) = arg (respell x) (respell_args xs)

-- The second outcome is the first, if that is a value.
abbrev Below {ℓ} : {A : Type ℓ} → Outcome A → Outcome A → Type ℓ
Below (ok a) r = r ≡ ok a
Below (err e) r = Unit

Below-refl {ℓ} : {A : Type ℓ} (r : Outcome A) → Below r r
Below-refl (ok a) = refl
Below-refl (err e) = tt

Below-bind {ℓ κ} :
    {A : Type ℓ} {B : Type κ} (m m' : Outcome A) (f f' : A → Outcome B)
    → Below m m'
    → ((a : A) → Below (f a) (f' a))
    → Below (m >>= f) (m' >>= f')
Below-bind (ok a) m' f f' h k = rw h (k a)
Below-bind (err e) m' f f' h k = tt

Below-ok {ℓ} : {A : Type ℓ} (r r' : Outcome A) (a : A) → Below r r' → r ≡ ok a → r' ≡ ok a
Below-ok (ok b) r' a h e = ground arith
Below-ok (err x) r' a h e = cc

Below-if {ℓ} :
    {A : Type ℓ} (b : Bool) (x y x' y' : Outcome A)
    → Below x x'
    → Below y y'
    → Below (if b then x else y) (if b then x' else y')
Below-if true x y x' y' h k = h
Below-if false x y x' y' h k = k

-- The second environment has what the first one has.
record Agrees {N : Type 0} (env env' : Env N) : Type 0 where
  contexts :
      (name : Text) (v : Value N)
      → lookup_context name env ≡ some v
      → lookup_context name env' ≡ some v
  status : job_status env' ≡ job_status env
  hasher : env'.hasher ≡ env.hasher

module _ {N : Type 0} ⦃float : Float N⦄ ⦃json : Json N⦄ where
  apply_op-Below :
      (op : Op) (v : Value N) (r r' : Outcome (Value N))
      → Below r r'
      → Below (apply_op op v r) (apply_op op v r')
  unfolding apply_op
  apply_op-Below op v (ok w) r' h = rw h (Below-refl (apply_op op v (ok w)))
  apply_op-Below or_op v (err e) r' h = Below-if (truthy v) (ok v) (err e) (ok v) r' refl tt
  apply_op-Below and_op v (err e) r' h = Below-if (truthy v) (err e) (ok v) r' (ok v) tt refl
  apply_op-Below _ v (err e) r' h = tt

  hash_files_fn-Agrees :
      (env env' : Env N) (args : List (Value N))
      → Agrees env env'
      → hash_files_fn env' args ≡ hash_files_fn env args
  unfolding hash_files_fn
  hash_files_fn-Agrees env env' [] a = refl
  hash_files_fn-Agrees env env' (v ∷ vs) a = ground (arith, a.hasher)

  apply-Agrees :
      (env env' : Env N) (f : Function) (args : List (Value N))
      → Agrees env env'
      → apply f env' args ≡ apply f env args
  unfolding apply
  apply-Agrees env env' success args a = rw a.status
  apply-Agrees env env' failure args a = rw a.status
  apply-Agrees env env' cancelled args a = rw a.status
  apply-Agrees env env' hash_files args a = hash_files_fn-Agrees env env' args a
  apply-Agrees env env' _ args a = ground arith

  context-Below :
      (env env' : Env N) (name name' : Text)
      → to_lower name' ≡ to_lower name
      → Agrees env env'
      → Below (eval env (ident name)) (eval env' (ident name'))
  unfolding eval
  context-Below env env' name name' h a =
      let same : lookup_context name' env' ≡ lookup_context name env' = same_name env' in
      elim (Option-cases (lookup_context name env)) [
        | inl e ↦ rw e tt
        | inr (v, e) ↦ rw (e, same, a.contexts name v e) refl
      ]
    where
      same_name : (x : Env N) → lookup_context name' x ≡ lookup_context name x
      same_name x = unfold lookup_context in rw h

  function-Below :
      (env env' : Env N) (name name' : Text) (r r' : Outcome (List (Value N)))
      → to_lower name' ≡ to_lower name
      → Agrees env env'
      → Below r r'
      → Below
          (call_function name env (function_named name) r)
          (call_function name' env' (function_named name') r')
  unfolding call_function function_named
  function-Below env env' name name' r r' h a k =
      rw h (elim (Option-cases (lookup (to_lower name) functions)) [
        | inl e ↦ rw e tt
        | inr (f, e) ↦ rw e (
            Below-bind r r' _ _ k
              λ args. rw (apply-Agrees env env' f args a) (Below-refl (apply f env args)))
      ])

  mutual
    unfolding eval respell

    eval-Below :
        (env env' : Env N) (spell : Text → Text)
        → ((s : Text) → to_lower (spell s) ≡ to_lower s)
        → Agrees env env'
        → (e : Node N) → Below (eval env e) (eval env' (respell spell e))
    eval-Below env env' spell h a (literal v) = refl
    eval-Below env env' spell h a (ident name) = context-Below env env' name (spell name) (h name) a
    eval-Below env env' spell h a (member o p) =
        Below-bind _ _ _ _ (eval-Below env env' spell h a o)
          λ v. Below-bind _ _ _ _ (eval-Below env env' spell h a p) λ w. refl
    eval-Below env env' spell h a (negate x) =
        Below-bind _ _ _ _ (eval-Below env env' spell h a x) λ v. refl
    eval-Below env env' spell h a (binary op l r) =
        Below-bind _ _ _ _ (eval-Below env env' spell h a l)
          λ v. apply_op-Below op v _ _ (eval-Below env env' spell h a r)
    eval-Below env env' spell h a (call name args) =
        function-Below env env' name (spell name) _ _ (h name) a
          (eval_args-Below env env' spell h a args)

    eval_args-Below :
        (env env' : Env N) (spell : Text → Text)
        → ((s : Text) → to_lower (spell s) ≡ to_lower s)
        → Agrees env env'
        → (xs : Args N) → Below (eval_args env xs) (eval_args env' (respell_args spell xs))
    eval_args-Below env env' spell h a no_args = refl
    eval_args-Below env env' spell h a (arg x xs) =
        Below-bind _ _ _ _ (eval-Below env env' spell h a x)
          λ v. Below-bind _ _ _ _ (eval_args-Below env env' spell h a xs) λ vs. refl

  added-keeps :
      (env : Env N) (name other : Text) (w v : Value N)
      → lookup_context name env ≡ none
      → lookup_context other env ≡ some v
      → lookup_context other (with_context name w env) ≡ some v
  added-keeps env name other w v n e =
      rw (lookup_context-with_context name other w env)
        (elim (text_key.dec (to_lower name) (to_lower other)) [
          | yes p ↦
              absurd (
                unfold lookup_context in ground (arith, ap (λ (k : Text). lookup k env.contexts) p))
          | no p ↦ rw (if_neg _ p) e
        ])

  with_context-Agrees :
      (env : Env N) (name : Text) (w : Value N)
      → lookup_context name env ≡ none
      → to_lower name ≢ text "__jobstatus"
      → Agrees env (with_context name w env)
  unfolding job_status
  with_context-Agrees env name w n j = record {
    contexts = λ other v e. added-keeps env name other w v n e;
    status = rw (job_status, kept) refl;
    hasher = unfold with_context in refl;
  }
    where
      kept :
          lookup_context (text "__jobstatus") (with_context name w env)
          ≡ lookup_context (text "__jobstatus") env
      kept =
          lookup_context-with_context name (text "__jobstatus") w env
          ∙ unfold to_lower in if_neg (text_key.dec (to_lower name) (text "__jobstatus")) j _ _

  -- A successful evaluation gives the same value if the contexts and functions are spelled with
  -- other capitals, and if a context that was not registered is added, the job status excepted.
  pub eval-stable :
      (spell : Text → Text)
      → ((s : Text) → to_lower (spell s) ≡ to_lower s)
      → (env : Env N) (name : Text) (w : Value N) (e : Node N) (v : Value N)
      → lookup_context name env ≡ none
      → to_lower name ≢ text "__jobstatus"
      → eval env e ≡ ok v
      → eval (with_context name w env) (respell spell e) ≡ ok v
  eval-stable spell h env name w e v n j =
      Below-ok _ _ v
        (eval-Below env (with_context name w env) spell h (with_context-Agrees env name w n j) e)
