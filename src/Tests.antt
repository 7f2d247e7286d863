-- ===== src/Tests.antt =====
-- Sample data, runs of the model on it, and the theorems applied to it.
mod Samples
mod Report
mod Queue
mod Worker
mod Measure
mod Export
mod Codec
mod Paging
mod Control
mod Runs
mod Races
mod Outbound
