-- ===== src/Report/Comparison/Delta.antt =====
-- classifyRunDelta of packages/report-core/src/index.ts, and the equality of job statuses.
use webperf_selfhosted.Base.{ℕ, Bool, true, false, not, Option, none, some, ltb, if◌then◌else◌}
use webperf_selfhosted.Report.Types.{LatencyJobTarget, LatencyJobDetail, JobStatus}
use webperf_selfhosted.Report.Comparison.Types.{
  Classification, improved, regressed, unchanged, missing_previous, missing_current,
}

abbrev pub is_true : Option Bool → Bool
is_true (some true) = true
is_true _ = false

-- `a === b` on `boolean | null`.
abbrev pub same_success : Option Bool → Option Bool → Bool
same_success none none = true
same_success (some true) (some true) = true
same_success (some false) (some false) = true
same_success _ _ = false

abbrev pub classify_latency : Option ℕ → Option ℕ → Classification
classify_latency (some current) (some previous) =
    if ltb current previous then improved else if ltb previous current then regressed else unchanged
classify_latency _ _ = unchanged

-- The two targets and their jobs are there.
abbrev pub classify_targets : LatencyJobTarget → LatencyJobTarget → Classification
classify_targets current previous =
    if not (same_success current.success previous.success)
    then (if is_true current.success then improved else regressed)
    else classify_latency current.latency_ms previous.latency_ms

unfoldable pub classify_run_delta :
    Option LatencyJobTarget
    → Option LatencyJobTarget
    → Option LatencyJobDetail
    → Option LatencyJobDetail
    → Classification
classify_run_delta current_target none current_job previous_job = missing_previous
classify_run_delta current_target (some p) current_job none = missing_previous
classify_run_delta none (some p) current_job (some j) = missing_current
classify_run_delta (some c) (some p) none (some j) = missing_current
classify_run_delta (some c) (some p) (some i) (some j) = classify_targets c p

abbrev pub same_job_status : JobStatus → JobStatus → Bool
same_job_status JobStatus.queued JobStatus.queued = true
same_job_status JobStatus.slot_allocating JobStatus.slot_allocating = true
same_job_status JobStatus.deploying JobStatus.deploying = true
same_job_status JobStatus.healthy JobStatus.healthy = true
same_job_status JobStatus.measuring JobStatus.measuring = true
same_job_status JobStatus.succeeded JobStatus.succeeded = true
same_job_status JobStatus.failed JobStatus.failed = true
same_job_status JobStatus.partial JobStatus.partial = true
same_job_status _ _ = false

abbrev pub same_optional_status : Option JobStatus → Option JobStatus → Bool
same_optional_status none none = true
same_optional_status (some a) (some b) = same_job_status a b
same_optional_status _ _ = false
