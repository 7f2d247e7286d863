-- ===== src/Tests/Samples.antt =====
-- Sample data.
use webperf_selfhosted.Base.{ℕ, String, Bool, true, Option, none, some, List, [], ◌∷◌}
use webperf_selfhosted.Report.Types.{
  TargetStatus, JobStatus, LatencyJobTarget, LatencyJobDetail, LatencyJobSummary, MonitorPolicy,
  MonitorType, SuccessRule, CheckProfileRun, RunRoute, RunTrigger,
}
use webperf_selfhosted.Queue.Types.{
  ExecutionJobKind, ExecutionJobStatus, ExecutionJobError, ExecutionJobRow, EnqueueExecutionJob,
  Payload, sealed, corrupt, Database,
}

abbrev pub target : String → TargetStatus → Option ℕ → Option Bool → LatencyJobTarget
target region status latency success = record {
  job_id = "job-1";
  region = region;
  status = status;
  attempt_no = 1;
  max_attempts = 3;
  latency_ms = latency;
  status_code = some 200;
  success = success;
  probe_impl = none;
  measurement = none;
  slot_id = none;
  error_code = none;
  error_class = none;
  error_message = none;
  started_at = some 10;
  finished_at = none;
  updated_at = 20;
}

abbrev pub mixed_targets : List LatencyJobTarget
mixed_targets =
    target "tokyo" TargetStatus.succeeded (some 120) (some true)
    ∷ target "paris" TargetStatus.measuring none none
    ∷ target "lima" TargetStatus.queued none none
    ∷ []

abbrev pub turned_targets : List LatencyJobTarget
turned_targets =
    target "paris" TargetStatus.measuring none none
    ∷ target "tokyo" TargetStatus.succeeded (some 120) (some true)
    ∷ target "lima" TargetStatus.queued none none
    ∷ []

abbrev pub policy : Option MonitorPolicy
policy = some record {
  monitor_type = MonitorType.latency;
  success_rule = SuccessRule.status_2xx_3xx;
  latency_threshold_ms = some 100;
}

abbrev pub summary : LatencyJobSummary
summary = record { total = 3; succeeded = 1; failed = 0; inflight = 2 }

abbrev pub probe_job : String → List LatencyJobTarget → LatencyJobDetail
probe_job id targets = record {
  id = id;
  url = "https://example.org/";
  status = JobStatus.measuring;
  requested_at = 5;
  completed_at = none;
  targets = targets;
  evaluation = none;
  summary = summary;
}

abbrev pub route : String → String → RunRoute
route id job_id = record {
  route_id = id;
  route_label = id;
  url = "https://example.org/";
  job_id = job_id;
}

abbrev pub run : String → List RunRoute → CheckProfileRun
run id routes = record {
  id = id;
  profile_id = "profile-1";
  trigger = RunTrigger.manual;
  created_at = 1;
  route_count = 2;
  routes = routes;
  evaluation = none;
  alert_deliveries = [];
}

abbrev pub first_run : CheckProfileRun
first_run = run "run-1" (route "home" "job-1" ∷ route "docs" "job-2" ∷ [])

abbrev pub second_run : CheckProfileRun
second_run = run "run-2" (route "home" "job-1" ∷ route "blog" "job-3" ∷ [])

abbrev pub run_jobs : List LatencyJobDetail
run_jobs = probe_job "job-1" mixed_targets ∷ []

-- A row of the queue: id, status, owner, expiry, attempts so far.
abbrev pub queue_row : String → ExecutionJobStatus → Option String → Option ℕ → ℕ → ExecutionJobRow
queue_row id status owner expiry attempts = record {
  id = id;
  kind = ExecutionJobKind.network_probe;
  resource_id = "run-1";
  status = status;
  lease_owner = owner;
  lease_expires_at = expiry;
  attempt_count = attempts;
  max_attempts = 3;
  available_at = 1000;
  payload_json = sealed (Payload.network_payload ("job-1" ∷ []));
  error_json = none;
  created_at = 900;
  started_at = none;
  updated_at = 900;
  completed_at = none;
}

abbrev pub queued_row : ExecutionJobRow
queued_row = queue_row "exec-1" ExecutionJobStatus.queued none none 0

abbrev pub leased_row : ExecutionJobRow
leased_row = queue_row "exec-2" ExecutionJobStatus.running (some "worker-a") (some 9000) 1

abbrev pub database : Database
database = record {
  execution_jobs = queued_row ∷ leased_row ∷ [];
  jobs = ("job-1", sealed (probe_job "job-1" mixed_targets)) ∷ ("job-2", corrupt) ∷ [];
  runs = ("run-1", sealed first_run) ∷ [];
  audits = [];
}

abbrev pub probe_error : ExecutionJobError
probe_error = record { code = "probe_failed"; message = "The probe failed"; retryable = true }

abbrev pub request : EnqueueExecutionJob
request = record {
  id = "exec-3";
  kind = ExecutionJobKind.network_probe;
  resource_id = "run-1";
  max_attempts = none;
  available_at = some 2000;
  payload = Payload.network_payload ("job-1" ∷ []);
}
