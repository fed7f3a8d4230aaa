-- ===== src/Memory.antt =====
-- internal/storage/memory/store.go: the in-memory durable store and the store of active objects.
pub mod State
pub mod Create
pub mod Read
pub mod Claim
pub mod Update
pub mod Active
pub mod Progress
pub mod Candidates
pub mod Observed
pub mod Cancel
pub mod Refusal
pub mod Invariant
pub mod Delivery
