-- ===== src/Outbound.antt =====
-- Which addresses requests may go to: apps/executor/src/outbound-http.ts for the calls of the executor, and
-- apps/browser-audit-lighthouse/src/network-policy.ts for those of the audited page.
pub mod Words
pub mod Policy
pub mod Spelling
pub mod Mapped
pub mod Resolve
pub mod Browser
