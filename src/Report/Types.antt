-- ===== src/Report/Types.antt =====
-- The contract types that report-core reads (packages/contracts/src/public-api.ts). A timestamp is
-- its number of milliseconds. Of a measurement only the final URL is read.
use webperf_selfhosted.Base.{ℕ, String, Bool, Option, List}

pub data TargetStatus : Type 0 where
  queued slot_allocating deploying healthy measuring succeeded failed : TargetStatus

pub data JobStatus : Type 0 where
  queued slot_allocating deploying healthy measuring succeeded failed partial : JobStatus

pub data ErrorClass : Type 0 where
  retryable terminal : ErrorClass

pub data ProbeImplementation : Type 0 where
  go rust : ProbeImplementation

pub record ProbeMeasurement : Type 0 where
  pub final_url : Option String

pub record LatencyJobTarget : Type 0 where
  pub job_id : String
  pub region : String
  pub status : TargetStatus
  pub attempt_no : ℕ
  pub max_attempts : ℕ
  pub latency_ms : Option ℕ
  pub status_code : Option ℕ
  pub success : Option Bool
  pub probe_impl : Option ProbeImplementation
  pub measurement : Option ProbeMeasurement
  pub slot_id : Option String
  pub error_code : Option String
  pub error_class : Option ErrorClass
  pub error_message : Option String
  pub started_at : Option ℕ
  pub finished_at : Option ℕ
  pub updated_at : ℕ

pub record LatencyJobSummary : Type 0 where
  pub total : ℕ
  pub succeeded : ℕ
  pub failed : ℕ
  pub inflight : ℕ

pub data MonitorType : Type 0 where
  latency uptime : MonitorType

pub data SuccessRule : Type 0 where
  status_2xx_3xx : SuccessRule

pub data MonitorStatus : Type 0 where
  healthy warning failed : MonitorStatus

pub record MonitorPolicy : Type 0 where
  pub monitor_type : MonitorType
  pub success_rule : SuccessRule
  pub latency_threshold_ms : Option ℕ

pub record MonitorEvaluation : Type 0 where
  pub monitor_type : MonitorType
  pub success_rule : SuccessRule
  pub status : MonitorStatus
  pub total_checks : ℕ
  pub healthy_checks : ℕ
  pub failed_checks : ℕ
  pub latency_threshold_ms : Option ℕ
  pub threshold_breached : Bool
  pub threshold_breached_count : ℕ
  pub worst_latency_ms : Option ℕ
  pub regression_detected : Bool
  pub regressed_count : ℕ

pub record LatencyJobDetail : Type 0 where
  pub id : String
  pub url : String
  pub status : JobStatus
  pub requested_at : ℕ
  pub completed_at : Option ℕ
  pub targets : List LatencyJobTarget
  pub evaluation : Option MonitorEvaluation
  pub summary : LatencyJobSummary

pub record RunRoute : Type 0 where
  pub route_id : String
  pub route_label : String
  pub url : String
  pub job_id : String

pub data RunTrigger : Type 0 where
  manual schedule : RunTrigger

pub record AlertDelivery : Type 0 where
  pub target_id : String
  pub target_name : String
  pub sent : Bool

pub record CheckProfileRun : Type 0 where
  pub id : String
  pub profile_id : String
  pub trigger : RunTrigger
  pub created_at : ℕ
  pub route_count : ℕ
  pub routes : List RunRoute
  pub evaluation : Option MonitorEvaluation
  pub alert_deliveries : List AlertDelivery
