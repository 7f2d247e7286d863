-- ===== src/Queue/Types.antt =====
-- The rows of the tables, and the types of packages/contracts/src/execution.ts.
-- A timestamp is its number of milliseconds: the code compares the fixed-width UTC texts, which are in
-- the same order. A sealed column either decodes to a value or does not (`corrupt`); what this process
-- writes decodes. Of a payload only what networkProbeExecutionPayloadSchema reads of it is kept.
use webperf_selfhosted.Base.{ℕ, String, Bool, Option, List}
use webperf_selfhosted.Report.Types.{LatencyJobDetail, CheckProfileRun, AlertDelivery}

pub data ExecutionJobKind : Type 0 where
  network_probe browser_audit webhook_delivery : ExecutionJobKind

pub data ExecutionJobStatus : Type 0 where
  queued leased running succeeded failed cancelled : ExecutionJobStatus

pub record ExecutionJobError : Type 0 where
  pub code : String
  pub message : String
  pub retryable : Bool

pub data Payload : Type 0 where
  network_payload : List String → Payload
  other_payload : Payload

pub data Stored (A : Type 0) : Type 0 where
  sealed : A → Stored A
  corrupt : Stored A

-- A row of `execution_jobs`.
pub record ExecutionJobRow : Type 0 where
  pub id : String
  pub kind : ExecutionJobKind
  pub resource_id : String
  pub status : ExecutionJobStatus
  pub lease_owner : Option String
  pub lease_expires_at : Option ℕ
  pub attempt_count : ℕ
  pub max_attempts : ℕ
  pub available_at : ℕ
  pub payload_json : Stored Payload
  pub error_json : Option (Stored ExecutionJobError)
  pub created_at : ℕ
  pub started_at : Option ℕ
  pub updated_at : ℕ
  pub completed_at : Option ℕ

pub record ExecutionJob : Type 0 where
  pub id : String
  pub kind : ExecutionJobKind
  pub resource_id : String
  pub status : ExecutionJobStatus
  pub lease_owner : Option String
  pub lease_expires_at : Option ℕ
  pub attempt_count : ℕ
  pub max_attempts : ℕ
  pub available_at : ℕ
  pub payload : Payload
  pub error : Option ExecutionJobError
  pub created_at : ℕ
  pub updated_at : ℕ
  pub completed_at : Option ℕ

pub record EnqueueExecutionJob : Type 0 where
  pub id : String
  pub kind : ExecutionJobKind
  pub resource_id : String
  pub max_attempts : Option ℕ
  pub available_at : Option ℕ
  pub payload : Payload

pub data AuditStatus : Type 0 where
  queued provisioning running uploading succeeded failed cancelled : AuditStatus

pub record BrowserAudit : Type 0 where
  pub id : String
  pub status : AuditStatus
  pub requested_at : ℕ
  pub started_at : Option ℕ
  pub completed_at : Option ℕ
  pub result : Option String
  pub error : Option String

-- packages/contracts/src/execution-resources.ts: ExecutionResourceResult.
pub data ResourceResult : Type 0 where
  network_result : List LatencyJobDetail → Option CheckProfileRun → ResourceResult
  audit_result : BrowserAudit → ResourceResult
  webhook_result : String → AlertDelivery → ResourceResult

pub record Database : Type 0 where
  pub execution_jobs : List ExecutionJobRow
  pub jobs : List (String × Stored LatencyJobDetail)
  pub runs : List (String × Stored CheckProfileRun)
  pub audits : List (String × Stored BrowserAudit)

-- What the operations throw.
pub data Failure : Type 0 where
  invalid_lease_owner invalid_lease_duration invalid_retry_delay invalid_error invalid_job : Failure
  availability_too_far not_decodable id_taken kind_mismatch missing_run : Failure

pub data Result (A : Type 0) : Type 0 where
  ok : A → Result A
  thrown : Failure → Result A
