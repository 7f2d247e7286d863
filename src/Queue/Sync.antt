-- ===== src/Queue/Sync.antt =====
-- apps/api/src/repository.ts: the writes of resources, and what an execution that ended without a
-- result does to the resource that it was for. A job that does not decode is left as it is.
pub mod Laws
use webperf_selfhosted.Base.{
  ℕ, String, Bool, true, false, not, ◌||◌, Option, none, some, List, [], ◌∷◌, ◌++◌, any,
  if◌then◌else◌, ◌=ₛ◌, map_get, map_set,
}
use webperf_selfhosted.Report.Types.{
  TargetStatus, LatencyJobTarget, LatencyJobDetail, ErrorClass, CheckProfileRun, AlertDelivery,
}
use webperf_selfhosted.Report.Status.{
  is_terminal_target_status, derive_job_status, summarize_targets,
}
use webperf_selfhosted.Queue.Types.{
  ExecutionJobKind, network_probe, browser_audit, webhook_delivery, ExecutionJobStatus,
  ExecutionJobError, ExecutionJob, Payload, network_payload, other_payload, Stored, sealed, corrupt,
  Database, AuditStatus, BrowserAudit, ResourceResult, network_result, audit_result, webhook_result,
  Result, ok, thrown, Failure, missing_run,
}

unfoldable pub persist_job : LatencyJobDetail → Database → Database
persist_job job db = record db { jobs = map_set job.id (sealed job) db.jobs }

unfoldable pub persist_run : CheckProfileRun → Database → Database
persist_run run db = record db { runs = map_set run.id (sealed run) db.runs }

unfoldable pub persist_browser_audit : BrowserAudit → Database → Database
persist_browser_audit audit db = record db { audits = map_set audit.id (sealed audit) db.audits }

abbrev pub readable : {A : Type 0} → Option (Stored A) → Option A
readable none = none
readable (some corrupt) = none
readable (some (sealed a)) = some a

abbrev pub is_cancelled : ExecutionJobStatus → Bool
is_cancelled ExecutionJobStatus.cancelled = true
is_cancelled _ = false

abbrev pub error_code_or : Option ExecutionJobError → String → String
error_code_or none d = d
error_code_or (some e) d = e.code

abbrev pub error_message_or : Option ExecutionJobError → String → String
error_message_or none d = d
error_message_or (some e) d = e.message

-- A target that has ended is kept; any other becomes a terminal failure.
unfoldable pub terminalize_target : String → String → ℕ → LatencyJobTarget → LatencyJobTarget
terminalize_target error_code error_message now t =
    if is_terminal_target_status t.status then t else record t {
      status = TargetStatus.failed;
      latency_ms = none;
      status_code = none;
      success = some false;
      probe_impl = none;
      measurement = none;
      slot_id = none;
      error_code = some error_code;
      error_class = some ErrorClass.terminal;
      error_message = some error_message;
      finished_at = some now;
      updated_at = now;
    }

unfoldable pub terminalize_targets :
    String → String → ℕ → List LatencyJobTarget → List LatencyJobTarget
unfolding terminalize_target
terminalize_targets error_code error_message now [] = []
terminalize_targets error_code error_message now (t ∷ ts) =
    terminalize_target error_code error_message now t
    ∷ terminalize_targets error_code error_message now ts

abbrev pub has_in_flight : List LatencyJobTarget → Bool
has_in_flight = any (λ t. not (is_terminal_target_status t.status))

unfoldable pub terminalize_job : String → String → ℕ → LatencyJobDetail → LatencyJobDetail
terminalize_job error_code error_message now job =
    let targets = terminalize_targets error_code error_message now job.targets in
    record job {
      status = derive_job_status targets;
      completed_at = some now;
      targets = targets;
      evaluation = none;
      summary = summarize_targets targets;
    }

abbrev pub sync_job : String → String → ℕ → Option LatencyJobDetail → Database → Database
sync_job error_code error_message now none db = db
sync_job error_code error_message now (some job) db =
    if has_in_flight job.targets
    then persist_job (terminalize_job error_code error_message now job) db
    else db

-- The loop over the payload's job ids.
unfoldable pub sync_jobs : String → String → ℕ → List String → Database → Database
unfolding persist_job terminalize_job
sync_jobs error_code error_message now [] db = db
sync_jobs error_code error_message now (id ∷ ids) db =
    sync_jobs error_code error_message now ids
      (sync_job error_code error_message now (readable (map_get id db.jobs)) db)

abbrev pub is_terminal_audit : AuditStatus → Bool
is_terminal_audit AuditStatus.succeeded = true
is_terminal_audit AuditStatus.failed = true
is_terminal_audit AuditStatus.cancelled = true
is_terminal_audit _ = false

abbrev pub started_or : Option ℕ → ℕ → Option ℕ
started_or none now = some now
started_or (some t) now = some t

unfoldable pub terminalize_audit : Bool → ℕ → BrowserAudit → BrowserAudit
terminalize_audit cancelled now audit = record audit {
  status = if cancelled then AuditStatus.cancelled else AuditStatus.failed;
  started_at = if cancelled then audit.started_at else started_or audit.started_at now;
  completed_at = some now;
  result = none;
  error =
      if cancelled then none else some "Browser Audit execution stopped before producing a result";
}

abbrev pub sync_audit : Bool → ℕ → Option BrowserAudit → Database → Database
sync_audit cancelled now none db = db
sync_audit cancelled now (some audit) db =
    if is_terminal_audit audit.status
    then db
    else persist_browser_audit (terminalize_audit cancelled now audit) db

abbrev pub sync_by_kind : ExecutionJobKind → Payload → ExecutionJob → ℕ → Database → Database
sync_by_kind network_probe other_payload job now db = db
sync_by_kind network_probe (network_payload ids) job now db =
    let cancelled = is_cancelled job.status in
    sync_jobs
      (if cancelled then "execution_cancelled" else error_code_or job.error "execution_failed")
      (if cancelled
        then "Network execution was cancelled before producing a result"
        else error_message_or job.error "Network execution stopped before producing a result")
      now ids db
sync_by_kind browser_audit payload job now db =
    sync_audit (is_cancelled job.status) now (readable (map_get job.resource_id db.audits)) db
sync_by_kind webhook_delivery payload job now db = db

unfoldable pub sync_terminal_execution_resource : ExecutionJob → ℕ → Database → Database
unfolding sync_jobs persist_browser_audit terminalize_audit
sync_terminal_execution_resource job now db = sync_by_kind job.kind job.payload job now db

abbrev pub has_delivery : String → List AlertDelivery → Bool
has_delivery target_id = any (λ d. d.target_id =ₛ target_id)

abbrev pub append_delivery : Option CheckProfileRun → AlertDelivery → Database → Result Database
append_delivery none delivery db = thrown missing_run
append_delivery (some run) delivery db =
    if has_delivery delivery.target_id run.alert_deliveries
    then ok db
    else ok
        (persist_run (record run { alert_deliveries = run.alert_deliveries ++ delivery ∷ [] }) db)

unfoldable pub append_check_profile_alert_delivery :
    String → AlertDelivery → Database → Result Database
unfolding persist_run
append_check_profile_alert_delivery run_id delivery db =
    append_delivery (readable (map_get run_id db.runs)) delivery db

unfoldable pub persist_jobs : List LatencyJobDetail → Database → Database
unfolding persist_job
persist_jobs [] db = db
persist_jobs (j ∷ js) db = persist_jobs js (persist_job j db)

abbrev pub persist_optional_run : Option CheckProfileRun → Database → Database
persist_optional_run none db = db
persist_optional_run (some run) db = persist_run run db

unfoldable pub persist_execution_resource : ResourceResult → Database → Result Database
unfolding persist_jobs persist_run persist_browser_audit append_check_profile_alert_delivery
persist_execution_resource (network_result jobs run) db =
    ok (persist_optional_run run (persist_jobs jobs db))
persist_execution_resource (audit_result audit) db = ok (persist_browser_audit audit db)
persist_execution_resource (webhook_result run_id delivery) db =
    append_check_profile_alert_delivery run_id delivery db

-- `result.kind`
abbrev pub result_kind : ResourceResult → ExecutionJobKind
result_kind (network_result jobs run) = network_probe
result_kind (audit_result audit) = browser_audit
result_kind (webhook_result run_id delivery) = webhook_delivery
