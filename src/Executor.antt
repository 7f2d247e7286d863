-- ===== src/Executor.antt =====
-- apps/executor/src/runner.ts: one worker of the queue: its options, the heartbeat that keeps the
-- lease of a running job, and what it reports of the job.
pub mod Options
pub mod Heartbeat
pub mod Attempt
