-- ===== src/Report/Status.antt =====
-- packages/report-core/src/index.ts: the status of a job from those of its targets, and the counts.
pub mod Counts
pub mod Progress
pub mod Order
use webperf_selfhosted.Base.{
  ℕ, Bool, true, false, not, List, [], ◌∷◌, map, length, count, every, any, if◌then◌else◌,
}
use webperf_selfhosted.Report.Types.{TargetStatus, JobStatus, LatencyJobTarget, LatencyJobSummary}

-- `terminalTargetStatuses.has(status)`
abbrev pub is_terminal_target_status : TargetStatus → Bool
is_terminal_target_status TargetStatus.succeeded = true
is_terminal_target_status TargetStatus.failed = true
is_terminal_target_status _ = false

-- `status === wanted`
abbrev pub same_status : TargetStatus → TargetStatus → Bool
same_status TargetStatus.queued TargetStatus.queued = true
same_status TargetStatus.slot_allocating TargetStatus.slot_allocating = true
same_status TargetStatus.deploying TargetStatus.deploying = true
same_status TargetStatus.healthy TargetStatus.healthy = true
same_status TargetStatus.measuring TargetStatus.measuring = true
same_status TargetStatus.succeeded TargetStatus.succeeded = true
same_status TargetStatus.failed TargetStatus.failed = true
same_status _ _ = false

abbrev pub statuses_of : List LatencyJobTarget → List TargetStatus
statuses_of [] = []
statuses_of (t ∷ ts) = t.status ∷ statuses_of ts

unfoldable pub summarize_targets : List LatencyJobTarget → LatencyJobSummary
summarize_targets targets = record {
  total = length targets;
  succeeded = count (λ t. same_status t.status TargetStatus.succeeded) targets;
  failed = count (λ t. same_status t.status TargetStatus.failed) targets;
  inflight = count (λ t. not (is_terminal_target_status t.status)) targets;
}

-- What `deriveJobStatus` returns for a list of statuses that is not empty.
unfoldable pub derive_from_statuses : List TargetStatus → JobStatus
derive_from_statuses statuses =
    if every (same_status TargetStatus.succeeded) statuses
    then JobStatus.succeeded
    else if every (same_status TargetStatus.failed) statuses
    then JobStatus.failed
    else if every is_terminal_target_status statuses
    then JobStatus.partial
    else if any (same_status TargetStatus.measuring) statuses
    then JobStatus.measuring
    else if any (same_status TargetStatus.healthy) statuses
    then JobStatus.healthy
    else if any (same_status TargetStatus.deploying) statuses
    then JobStatus.deploying
    else if any (same_status TargetStatus.slot_allocating) statuses
    then JobStatus.slot_allocating
    else JobStatus.queued

unfoldable pub derive_job_status : List LatencyJobTarget → JobStatus
unfolding derive_from_statuses
derive_job_status [] = JobStatus.queued
derive_job_status (t ∷ ts) = derive_from_statuses (statuses_of (t ∷ ts))
