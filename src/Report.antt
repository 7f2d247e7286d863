-- ===== src/Report.antt =====
-- packages/report-core: comparisons of runs, monitor evaluations, reports.
pub mod Types
pub mod Status
pub mod Comparison
pub mod Monitor
pub mod Csv
