-- ===== src/Scheduler.antt =====
-- internal/run/scheduler: ingestion, dispatch, projection, cancellation and collection.
pub mod Port
pub mod Ingestor
pub mod Dispatcher
pub mod Projector
pub mod Backend
