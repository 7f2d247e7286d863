-- ===== src/Control/ProfileInputs.antt =====
-- apps/api/src/index.ts: the parts of a check profile that its handler makes of the payload and of the
-- profile that is there.
pub mod Webhooks
use webperf_selfhosted.Base.{
  ℕ, zero, suc, String, Bool, true, false, not, Option, none, some, List, [], ◌∷◌, get_elem?,
  if◌then◌else◌, ◌=ₛ◌, ◌==◌,
}
use webperf_selfhosted.Report.Types.{MonitorPolicy, MonitorType, SuccessRule, CheckProfileRun}
use webperf_selfhosted.Control.Types.{
  Schedule, Baseline, MigrationStatus, LocationMigration, WebhookTarget, AlertConfig, CheckProfile,
  MonitorPolicyInput, WebhookTargetInput, AlertConfigInput, Store, Attempt, done, thrown, invalid,
}
use webperf_selfhosted.Control.Store.{get_entity}
use webperf_selfhosted.Control.Inputs.{
  Platform, ◌>>=◌, or_else, first_of, redacted_value, compute_next_run_at, require_trimmed_text,
  normalize_optional_text,
}

abbrev pub and_then {ℓ κ} : {A : Type ℓ} {B : Type κ} → Option A → (A → Option B) → Option B
and_then none f = none
and_then (some a) f = f a

abbrev pub default_policy : MonitorPolicy
default_policy = record {
  monitor_type = MonitorType.latency;
  success_rule = SuccessRule.status_2xx_3xx;
  latency_threshold_ms = none;
}

unfoldable pub normalize_monitor_policy : Option MonitorPolicyInput → MonitorPolicy
normalize_monitor_policy none = default_policy
normalize_monitor_policy (some policy) = record {
  monitor_type = or_else policy.monitor_type MonitorType.latency;
  success_rule = or_else policy.success_rule SuccessRule.status_2xx_3xx;
  latency_threshold_ms = policy.latency_threshold_ms;
}

abbrev pub is_requires_review : MigrationStatus → Bool
is_requires_review MigrationStatus.requires_review = true
is_requires_review MigrationStatus.applied = false
is_requires_review MigrationStatus.accepted = false

-- `profile.locationMigration?.status === 'requires_review'`
abbrev pub needs_review : Option LocationMigration → Bool
needs_review none = false
needs_review (some migration) = is_requires_review migration.status

abbrev pub is_masked : Option String → Bool
is_masked none = false
is_masked (some value) = value =ₛ redacted_value

-- `if (!previousValue)`: an empty secret counts as none.
abbrev pub previous_secret : Option String → Attempt (Option String)
previous_secret none = thrown invalid
previous_secret (some secret) = if secret =ₛ "" then thrown invalid else done (some secret)

module _ (platform : Platform) where
  unfoldable pub resolve_masked_webhook_secret :
      Option String → Option String → Attempt (Option String)
  resolve_masked_webhook_secret value previous =
      if not (is_masked value)
      then done (normalize_optional_text platform value)
      else previous_secret previous

  abbrev pub target_id_or : Option WebhookTarget → String → String
  target_id_or none id = id
  target_id_or (some target) id = target.id

  abbrev pub secret_of : Option WebhookTarget → Option String
  secret_of none = none
  secret_of (some target) = target.secret

  -- One target of the payload, with the target that stands at its index.
  unfoldable pub merge_webhook_target :
      ℕ → WebhookTargetInput → Option WebhookTarget → Attempt WebhookTarget
  unfolding require_trimmed_text resolve_masked_webhook_secret
  merge_webhook_target index target previous = require_trimmed_text platform target.name >>= λ name.
      resolve_masked_webhook_secret target.secret (secret_of previous) >>= λ secret. done (record {
        id = target_id_or previous (platform.fresh "webhook_" index);
        name = name;
        url = platform.trim target.url;
        enabled = or_else target.enabled true;
        secret = secret;
      })

  unfoldable pub merge_webhook_targets :
      ℕ → List WebhookTargetInput → List WebhookTarget → Attempt (List WebhookTarget)
  unfolding merge_webhook_target
  merge_webhook_targets index [] existing = done []
  merge_webhook_targets index (target ∷ targets) existing =
      merge_webhook_target index target (get_elem? existing index) >>= λ merged.
      merge_webhook_targets (suc index) targets existing >>= λ rest. done (merged ∷ rest)

  abbrev pub targets_of : Option AlertConfig → List WebhookTarget
  targets_of none = []
  targets_of (some alerts) = alerts.webhook_targets

  abbrev pub merged_targets :
      Option (List WebhookTargetInput) → Option AlertConfig → Attempt (List WebhookTarget)
  merged_targets none existing = done (targets_of existing)
  merged_targets (some targets) existing = merge_webhook_targets zero targets (targets_of existing)

  unfoldable pub normalize_alert_config :
      Option AlertConfigInput → Option AlertConfig → Attempt AlertConfig
  unfolding merge_webhook_targets
  normalize_alert_config alerts existing =
      merged_targets (and_then alerts (λ a. a.webhook_targets)) existing >>= λ targets.
      let input = and_then alerts (λ a. a.triggers) in
      let stored = and_then existing (λ a. some a.triggers) in
      done (record {
        enabled =
            first_of (and_then alerts (λ a. a.enabled)) (and_then existing (λ a. some a.enabled))
              false;
        webhook_targets = targets;
        triggers = record {
          on_failure =
              first_of (and_then input (λ t. t.on_failure))
                (and_then stored (λ t. some t.on_failure)) true;
          on_latency_threshold_breach =
              first_of (and_then input (λ t. t.on_latency_threshold_breach))
                (and_then stored (λ t. some t.on_latency_threshold_breach)) false;
          on_regression =
              first_of (and_then input (λ t. t.on_regression))
                (and_then stored (λ t. some t.on_regression)) false;
        };
      })

abbrev pub new_schedule : ℕ → ℕ → Option Schedule → Schedule
new_schedule interval_minutes now existing = record {
  interval_minutes = interval_minutes;
  next_run_at = some (compute_next_run_at now interval_minutes);
  last_run_at = and_then existing (λ s. s.last_run_at);
  last_run_job_count = and_then existing (λ s. s.last_run_job_count);
}

-- The schedule that is there is kept if its interval is the wanted one.
abbrev pub schedule_with : ℕ → ℕ → Option Schedule → Schedule
schedule_with interval_minutes now none = new_schedule interval_minutes now none
schedule_with interval_minutes now (some existing) =
    if existing.interval_minutes == interval_minutes
    then existing
    else new_schedule interval_minutes now (some existing)

-- The existing profile's schedule, if there is a profile and it has one.
unfoldable pub build_profile_schedule : Option Schedule → Option ℕ → ℕ → Option Schedule
build_profile_schedule existing none now = none
build_profile_schedule existing (some interval_minutes) now =
    some (schedule_with interval_minutes now existing)

-- `run && run.profileId === profile.id ? run : null`
abbrev pub run_of : CheckProfile → Option CheckProfileRun → Option CheckProfileRun
run_of profile none = none
run_of profile (some run) = if run.profile_id =ₛ profile.id then some run else none

abbrev pub run_of_baseline : CheckProfile → Store → Option Baseline → Option CheckProfileRun
run_of_baseline profile store none = none
run_of_baseline profile store (some baseline) =
    if baseline.run_id =ₛ ""
    then none
    else run_of profile (get_entity baseline.run_id store.database.runs)

unfoldable pub resolve_baseline_run : CheckProfile → Store → Option CheckProfileRun
unfolding get_entity
resolve_baseline_run profile store = run_of_baseline profile store profile.baseline

abbrev pub baseline_if : Option CheckProfileRun → Baseline → Option Baseline
baseline_if none baseline = none
baseline_if (some run) baseline = if run.id =ₛ baseline.run_id then some baseline else none

abbrev pub kept_baseline : CheckProfile → Store → String → Option Baseline → Option Baseline
kept_baseline existing store next_route_set_id none = none
kept_baseline existing store next_route_set_id (some baseline) =
    if not (existing.route_set_id =ₛ next_route_set_id)
    then none
    else baseline_if (resolve_baseline_run existing store) baseline

abbrev pub baseline_after : Option CheckProfile → Store → String → Option Baseline
baseline_after none store next_route_set_id = none
baseline_after (some existing) store next_route_set_id =
    kept_baseline existing store next_route_set_id existing.baseline

unfoldable pub resolve_updated_profile_baseline :
    Option CheckProfile → Store → String → Option Baseline
unfolding resolve_baseline_run
resolve_updated_profile_baseline existing store next_route_set_id =
    baseline_after existing store next_route_set_id
