-- ===== src/Control.antt =====
-- apps/api/src/index.ts: the control plane's entities and the requests that read and write them.
pub mod Types
pub mod Store
pub mod Inputs
pub mod ProfileInputs
pub mod Handlers
pub mod Profiles
pub mod Jobs
pub mod Runs
pub mod Requests
pub mod Integrity
