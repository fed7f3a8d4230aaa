-- ===== src/Run.antt =====
-- internal/run/model: the durable run state machine and its record types.
pub mod JobStatus
pub mod RunStatus
pub mod Aggregate
pub mod Records
