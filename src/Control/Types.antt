-- ===== src/Control/Types.antt =====
-- The entities of the control plane and the payloads that write them, as packages/contracts/src/public-api.ts
-- declares them. A timestamp is its number of milliseconds.
use webperf_selfhosted.Base.{ℕ, String, Bool, Option, List}
use webperf_selfhosted.Report.Types.{MonitorPolicy, MonitorType, SuccessRule}
use webperf_selfhosted.Queue.Types.{Database, Stored}

pub record Property : Type 0 where
  pub id : String
  pub name : String
  pub base_url : String
  pub created_at : ℕ
  pub updated_at : ℕ

pub record RouteEntry : Type 0 where
  pub id : String
  pub label : String
  pub url : String

pub record RouteSet : Type 0 where
  pub id : String
  pub property_id : String
  pub name : String
  pub routes : List RouteEntry
  pub created_at : ℕ
  pub updated_at : ℕ

pub record Schedule : Type 0 where
  pub interval_minutes : ℕ
  pub next_run_at : Option ℕ
  pub last_run_at : Option ℕ
  pub last_run_job_count : Option ℕ

pub record Baseline : Type 0 where
  pub run_id : String
  pub pinned_at : ℕ

pub data MigrationStatus : Type 0 where
  applied requires_review accepted : MigrationStatus

pub data MigrationReason : Type 0 where
  singleton_matches_runtime legacy_multi_region legacy_region_mismatch : MigrationReason
  legacy_region_pack_missing : MigrationReason

pub record LocationMigration : Type 0 where
  pub source_region_pack_id : String
  pub source_regions : List String
  pub runtime_region_id : String
  pub status : MigrationStatus
  pub reason : MigrationReason
  pub acknowledged_at : Option ℕ

pub record RequestHeader : Type 0 where
  pub name : String
  pub value : String

-- The only mode is `text`.
pub record RequestBody : Type 0 where
  pub content_type : Option String
  pub value : String

pub record RequestConfig : Type 0 where
  pub method : String
  pub headers : List RequestHeader
  pub body : Option RequestBody

pub record WebhookTarget : Type 0 where
  pub id : String
  pub name : String
  pub url : String
  pub enabled : Bool
  pub secret : Option String

pub record AlertTriggers : Type 0 where
  pub on_failure : Bool
  pub on_latency_threshold_breach : Bool
  pub on_regression : Bool

pub record AlertConfig : Type 0 where
  pub enabled : Bool
  pub webhook_targets : List WebhookTarget
  pub triggers : AlertTriggers

-- Of the policy for browser audits only its text is kept: nothing here reads it.
pub record CheckProfile : Type 0 where
  pub id : String
  pub property_id : String
  pub route_set_id : String
  pub name : String
  pub note : Option String
  pub request : Option RequestConfig
  pub monitor_policy : Option MonitorPolicy
  pub alerts : Option AlertConfig
  pub browser_audit_policy : Option String
  pub schedule : Option Schedule
  pub baseline : Option Baseline
  pub location_migration : Option LocationMigration
  pub created_at : ℕ
  pub updated_at : ℕ

-- The payloads of the requests, as their schemas accept them.
pub record PropertyInput : Type 0 where
  pub name : String
  pub base_url : String

pub record RouteInput : Type 0 where
  pub label : String
  pub url : String

pub record RouteSetInput : Type 0 where
  pub property_id : String
  pub name : String
  pub routes : List RouteInput

pub record MonitorPolicyInput : Type 0 where
  pub monitor_type : Option MonitorType
  pub success_rule : Option SuccessRule
  pub latency_threshold_ms : Option ℕ

pub record WebhookTargetInput : Type 0 where
  pub name : String
  pub url : String
  pub enabled : Option Bool
  pub secret : Option String

pub record AlertTriggersInput : Type 0 where
  pub on_failure : Option Bool
  pub on_latency_threshold_breach : Option Bool
  pub on_regression : Option Bool

pub record AlertConfigInput : Type 0 where
  pub enabled : Option Bool
  pub webhook_targets : Option (List WebhookTargetInput)
  pub triggers : Option AlertTriggersInput

pub record CheckProfileInput : Type 0 where
  pub property_id : String
  pub route_set_id : String
  pub name : String
  pub note : Option String
  pub request : Option RequestConfig
  pub monitor_policy : Option MonitorPolicyInput
  pub alerts : Option AlertConfigInput
  pub schedule_interval_minutes : Option ℕ
  -- Only an update has it; it is missing on a creation.
  pub acknowledge_location_migration : Option Bool

-- The tables of the control plane beside the database of the queue, which holds jobs and runs too.
pub record Store : Type 0 where
  pub properties : List (String × Stored Property)
  pub route_sets : List (String × Stored RouteSet)
  pub check_profiles : List (String × Stored CheckProfile)
  pub database : Database

-- What a handler answers: an entity with a success status, or an error with its status.
pub data Answer (A : Type 0) : Type 0 where
  answered : ℕ → A → Answer A
  refused : ℕ → Answer A

-- What the code in a `try` throws: a DuplicateEntityError, or another error.
pub data Thrown : Type 0 where
  duplicate invalid : Thrown

pub data Attempt (A : Type 0) : Type 0 where
  done : A → Attempt A
  thrown : Thrown → Attempt A
