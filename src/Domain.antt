-- ===== src/Domain.antt =====
-- packages/domain-core: what a deployment may measure.
pub mod Url
pub mod Hex
pub mod Paging
