-- ===== src/Syntax.antt =====
-- internal/workflow/syntax: from a workflow document to its AST.
pub mod Ast
pub mod Node
pub mod Parse
pub mod Jobs
pub mod Document
