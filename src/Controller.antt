-- ===== src/Controller.antt =====
-- internal/runtime/controller: the reconciliation of a JobRun object with its pod.
pub mod Objects
pub mod Reconcile
pub mod Writes
