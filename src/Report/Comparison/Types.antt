-- ===== src/Report/Comparison/Types.antt =====
-- The comparison types of packages/contracts/src/public-api.ts and of report-core.
use webperf_selfhosted.Base.{ℕ, String, Bool, Option, List, ℤ}
use webperf_selfhosted.Report.Types.{
  LatencyJobDetail, CheckProfileRun, JobStatus, ProbeImplementation,
}

pub record RunRouteJob : Type 0 where
  pub route_id : String
  pub route_label : String
  pub url : String
  pub job : Option LatencyJobDetail

pub data Classification : Type 0 where
  improved regressed unchanged missing_previous missing_current : Classification

-- `Percent` is the type of the numbers that the floating-point percentage yields.
pub record RegionComparison (Percent : Type 0) : Type 0 where
  pub region : String
  pub current_job_id : Option String
  pub previous_job_id : Option String
  pub current_status : Option JobStatus
  pub previous_status : Option JobStatus
  pub current_latency_ms : Option ℕ
  pub previous_latency_ms : Option ℕ
  pub current_status_code : Option ℕ
  pub previous_status_code : Option ℕ
  pub current_final_url : Option String
  pub previous_final_url : Option String
  pub current_probe_impl : Option ProbeImplementation
  pub previous_probe_impl : Option ProbeImplementation
  pub current_error_message : Option String
  pub previous_error_message : Option String
  pub latency_delta_ms : Option ℤ
  pub latency_delta_pct : Option Percent
  pub classification : Classification
  pub status_changed : Bool

pub record RouteComparison (Percent : Type 0) : Type 0 where
  pub route_id : String
  pub route_label : String
  pub url : String
  pub regions : List (RegionComparison Percent)

pub record ComparisonSummary : Type 0 where
  pub routes_compared : ℕ
  pub regions_compared : ℕ
  pub improved : ℕ
  pub regressed : ℕ
  pub unchanged : ℕ
  pub missing_previous : ℕ
  pub missing_current : ℕ

pub data ComparisonMode : Type 0 where
  latest_previous baseline custom : ComparisonMode

pub record Comparison (Percent : Type 0) : Type 0 where
  pub current_run : CheckProfileRun
  pub compared_run : Option CheckProfileRun
  pub mode : ComparisonMode
  pub summary : ComparisonSummary
  pub routes : List (RouteComparison Percent)
