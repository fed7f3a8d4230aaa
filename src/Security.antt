-- ===== src/Security.antt =====
-- internal/security: the claims of a workload identity and the decisions that rest on them.
pub mod Identity
pub mod Policy
