-- ===== src/Redaction.antt =====
-- apps/api/src/redaction.ts: what is hidden from responses.
pub mod Names
