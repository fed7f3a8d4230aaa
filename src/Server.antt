-- ===== src/Server.antt =====
-- internal/server: the control plane that joins the parts.
pub mod State
pub mod Access
pub mod Secrets
pub mod Bound
pub mod Names
pub mod Plans
pub mod Source
pub mod Conditions
pub mod Ingest
pub mod Replay
