-- ===== src/Expression.antt =====
-- internal/workflow/expression: the expression engine.
pub mod Errors
pub mod Value
pub mod Functions
pub mod Eval
pub mod Tokens
pub mod Parser
pub mod Lexer
pub mod Glob
pub mod Conditions
pub mod Format
pub mod Syntax
pub mod Env
