-- ===== src/Expression/Errors.antt =====
-- internal/workflow/expression/errors.go: the errors of the engine, without their messages.
use forgelet.Prelude.{ℕ, Text, List}

-- The place of a token: the byte offset, and the line and column from 1.
pub record Position : Type 0 where
  pub offset : ℕ
  pub line : ℕ
  pub column : ℕ

pub data EngineError : Type 0 where
  parse_error : Position → EngineError
  context_unavailable : Text → List Text → EngineError
  not_supported : Text → EngineError
  eval_error : EngineError
  -- An unterminated placeholder in a template.
  unterminated : EngineError

pub data Outcome {ℓ} (A : Type ℓ) : Type ℓ where
  ok : A → Outcome A
  err : EngineError → Outcome A

infixl 5 ◌>>=◌
abbrev pub ◌>>=◌ {ℓ κ} : {A : Type ℓ} {B : Type κ} → Outcome A → (A → Outcome B) → Outcome B
ok a >>= f = f a
err e >>= f = err e
