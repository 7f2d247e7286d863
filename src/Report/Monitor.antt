-- ===== src/Report/Monitor.antt =====
-- packages/report-core/src/index.ts: the monitor's verdict on the targets of a run, and the summary
-- of a run for a report. Of a profile only what these read is kept.
pub mod Verdict
use webperf_selfhosted.Base.{
  ℕ, ◌-◌, String, Bool, true, false, not, ◌&&◌, ◌||◌, Option, none, some, List, [], ◌∷◌, ltb, leb,
  if◌then◌else◌, length, count, ◌=ₛ◌, ◌++◌, ◌+◌,
}
use webperf_selfhosted.Report.Types.{
  TargetStatus, LatencyJobTarget, LatencyJobDetail, MonitorPolicy, MonitorEvaluation, MonitorStatus,
  MonitorType, SuccessRule, CheckProfileRun, RunTrigger, AlertDelivery,
}
use webperf_selfhosted.Report.Status.{same_status}

-- A text that is there and not empty: what JavaScript's truth test passes.
abbrev pub is_truthy_text : Option String → Bool
is_truthy_text none = false
is_truthy_text (some s) = not (s =ₛ "")

abbrev pub is_success_code : Option ℕ → Bool
is_success_code none = false
is_success_code (some c) = leb 200 c && ltb c 400

unfoldable pub is_target_successful : LatencyJobTarget → Bool
is_target_successful t =
    if not (same_status t.status TargetStatus.succeeded)
    then false
    else if is_truthy_text t.error_message
    then false
    else is_success_code t.status_code

abbrev pub default_monitor_policy : MonitorPolicy
default_monitor_policy = record {
  monitor_type = MonitorType.latency;
  success_rule = SuccessRule.status_2xx_3xx;
  latency_threshold_ms = none;
}

abbrev pub effective_policy : Option MonitorPolicy → MonitorPolicy
effective_policy none = default_monitor_policy
effective_policy (some p) = p

abbrev pub is_over : ℕ → Option ℕ → Bool
is_over limit none = false
is_over limit (some ms) = ltb limit ms

-- A threshold of null or 0 counts nothing.
unfoldable pub breached_count : Option ℕ → List LatencyJobTarget → ℕ
breached_count none targets = 0
breached_count (some limit) targets =
    if ltb 0 limit then count (λ t. is_over limit t.latency_ms) targets else 0

abbrev pub worse : Option ℕ → Option ℕ → Option ℕ
worse worst none = worst
worse none (some value) = some value
worse (some w) (some value) = if ltb w value then some value else some w

-- The `reduce` over the latencies that are there, from `worst`.
unfoldable pub worst_from : Option ℕ → List LatencyJobTarget → Option ℕ
worst_from worst [] = worst
worst_from worst (t ∷ ts) = worst_from (worse worst t.latency_ms) ts

unfoldable pub evaluate_monitor_targets :
    Option MonitorPolicy → List LatencyJobTarget → ℕ → MonitorEvaluation
evaluate_monitor_targets monitor_policy targets regressed_count =
    let policy = effective_policy monitor_policy in
    let failed_checks = count (λ t. not (is_target_successful t)) targets in
    let breached = breached_count policy.latency_threshold_ms targets in
    let threshold_breached = ltb 0 breached in
    let regression_detected = ltb 0 regressed_count in
    record {
      monitor_type = policy.monitor_type;
      success_rule = policy.success_rule;
      status =
          if ltb 0 failed_checks
          then MonitorStatus.failed
          else if threshold_breached || regression_detected
          then MonitorStatus.warning
          else MonitorStatus.healthy;
      total_checks = length targets;
      healthy_checks = length targets - failed_checks;
      failed_checks = failed_checks;
      latency_threshold_ms = policy.latency_threshold_ms;
      threshold_breached = threshold_breached;
      threshold_breached_count = breached;
      worst_latency_ms = worst_from none targets;
      regression_detected = regression_detected;
      regressed_count = regressed_count;
    }

pub record CheckProfile : Type 0 where
  pub id : String
  pub name : String
  pub monitor_policy : Option MonitorPolicy
  pub baseline_run_id : Option String

pub record RunReportSummary : Type 0 where
  pub run_id : String
  pub created_at : ℕ
  pub trigger : RunTrigger
  pub route_count : ℕ
  pub job_count : ℕ
  pub status : MonitorStatus
  pub evaluation : Option MonitorEvaluation
  pub alert_deliveries : List AlertDelivery
  pub baseline_pinned : Bool

-- `jobs.flatMap((job) => job.targets)`
unfoldable pub all_targets : List LatencyJobDetail → List LatencyJobTarget
all_targets [] = []
all_targets (j ∷ js) = j.targets ++ all_targets js

abbrev pub is_text : Option String → String → Bool
is_text none s = false
is_text (some t) s = t =ₛ s

-- `run.evaluation ?? evaluateMonitorTargets(…)`
abbrev pub evaluation_or : Option MonitorEvaluation → MonitorEvaluation → MonitorEvaluation
evaluation_or none computed = computed
evaluation_or (some e) computed = e

unfoldable pub summarize_check_profile_run_report :
    CheckProfile → CheckProfileRun → List LatencyJobDetail → ℕ → RunReportSummary
unfolding all_targets
summarize_check_profile_run_report profile run jobs regressed_count =
    let evaluation =
      evaluation_or run.evaluation
        (evaluate_monitor_targets profile.monitor_policy (all_targets jobs) regressed_count) in
    record {
      run_id = run.id;
      created_at = run.created_at;
      trigger = run.trigger;
      route_count = run.route_count;
      job_count = length jobs;
      status = evaluation.status;
      evaluation = some evaluation;
      alert_deliveries = run.alert_deliveries;
      baseline_pinned = is_text profile.baseline_run_id run.id;
    }
