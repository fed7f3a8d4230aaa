-- ===== src/Compiler.antt =====
-- internal/workflow/compiler: from the parsed workflow to job instances.
pub mod Filters
pub mod Matrix
pub mod TopoSort
pub mod Builtin
pub mod Compile
