-- ===== src/Queue.antt =====
-- apps/api/src/repository.ts: the durable execution queue and the resources that it finalizes.
pub mod Types
pub mod Schema
pub mod Statements
pub mod Sync
pub mod Operation
pub mod Enqueue
pub mod Lease
pub mod Run
pub mod Transition
pub mod Soundness
pub mod Persistence
pub mod Rows
pub mod Leases
pub mod Decoding
pub mod Outcomes
pub mod Ordering
pub mod Repeats
pub mod Settling
pub mod Grants
