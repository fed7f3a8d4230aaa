-- ===== src/Executor.antt =====
-- internal/runtime/executor: what the output and the files of a step say, and the run of a job.
pub mod FileCommand
pub mod Command
pub mod Mask
pub mod Plan
pub mod Context
pub mod Engine
