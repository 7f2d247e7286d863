-- ===== src/Tests/Report.antt =====
-- The reports, on sample targets and runs.
use webperf_selfhosted.Base.{
  ℕ, ◌+◌, ◌<◌, ◌≤◌, String, ◌≡◌, ◌≢◌, ◌↔◌, refl, true, false, ◌||◌, none, some, [], length, any,
  every, All, Distinct, includes, Perm, Permᴰ, arith,
}
use webperf_selfhosted.Report.Types.{TargetStatus, JobStatus, LatencyJobTarget, MonitorStatus}
use webperf_selfhosted.Report.Status.{
  is_terminal_target_status, same_status, summarize_targets, derive_job_status,
}
use webperf_selfhosted.Report.Status.Counts.{derive_job_status-summary}
use webperf_selfhosted.Report.Status.Progress.{
  progress, as_job_status, derive_job_status-most_advanced,
}
use webperf_selfhosted.Report.Monitor.{is_target_successful, evaluate_monitor_targets}
use webperf_selfhosted.Report.Monitor.Verdict.{is_breaching, evaluate_monitor_targets_verdict}
use webperf_selfhosted.Report.Comparison.Types.{
  improved, regressed, missing_previous, missing_current, latest_previous, RunRouteJob,
}
use webperf_selfhosted.Report.Comparison.{
  compare_route, build_check_profile_comparison, chain, regions_of, targets_of,
}
use webperf_selfhosted.Report.Comparison.Delta.{classify_run_delta}
use webperf_selfhosted.Report.Comparison.Totals.{
  total_regions, total_in_class, build_check_profile_comparison_totals,
}
use webperf_selfhosted.Report.Comparison.Routes.{
  route_ids, compared_route_ids, ids_compared, regions_compared_in,
  build_check_profile_comparison_routes, compare_route_regions,
}
use webperf_selfhosted.Report.Comparison.Symmetry.{mirror, classify_run_delta-mirror}
use webperf_selfhosted.Tests.Samples.{
  target, mixed_targets, turned_targets, policy, probe_job, first_run, second_run, run_jobs,
}

mixed_status : derive_job_status mixed_targets ≡ JobStatus.measuring
unfolding derive_job_status
mixed_status = refl

mixed_inflight : 0 < (summarize_targets mixed_targets).inflight
unfolding summarize_targets
mixed_inflight = omega arith

derive_job_status-summary_example :
    let s = summarize_targets mixed_targets in
    ((derive_job_status mixed_targets ≡ JobStatus.succeeded)
      ↔ ((0 < s.total) × (s.succeeded ≡ s.total)))
    × ((derive_job_status mixed_targets ≡ JobStatus.failed)
        ↔ ((0 < s.total) × (s.failed ≡ s.total)))
    × ((derive_job_status mixed_targets ≡ JobStatus.partial)
        ↔ ((0 < s.total) × (s.inflight ≡ 0) × (s.succeeded ≢ s.total) × (s.failed ≢ s.total)))
derive_job_status-summary_example = derive_job_status-summary mixed_targets

derive_job_status-most_advanced_example :
    (t : TargetStatus) × (derive_job_status mixed_targets ≡ as_job_status t)
    × (is_terminal_target_status t ≡ false)
    × (any (λ u. same_status t u.status) mixed_targets ≡ true)
    × All (λ u. progress u.status ≤ progress t) mixed_targets
derive_job_status-most_advanced_example =
    derive_job_status-most_advanced mixed_targets mixed_inflight

turned : Perm mixed_targets turned_targets
turned = ∣ Permᴰ.swap refl refl ∣₁

abbrev none_regressed : ℕ
none_regressed = 0

evaluate_monitor_targets_verdict_example :
    let e = evaluate_monitor_targets policy mixed_targets none_regressed in
    ((e.status ≡ MonitorStatus.failed) ↔ (every is_target_successful mixed_targets ≡ false))
    × ((e.status ≡ MonitorStatus.healthy) ↔ (
        (every is_target_successful mixed_targets ≡ true)
        × (any (is_breaching policy) mixed_targets ≡ false)
        × (none_regressed ≡ 0)))
    × (e.healthy_checks + e.failed_checks ≡ e.total_checks)
    × (e.total_checks ≡ length mixed_targets)
evaluate_monitor_targets_verdict_example =
    evaluate_monitor_targets_verdict policy mixed_targets none_regressed

build_check_profile_comparison_totals_example :
    let c =
      build_check_profile_comparison
        (λ (a b : ℕ). a)
        first_run
        run_jobs
        (some second_run)
        run_jobs
        latest_previous in
    let s = c.summary in
    (s.routes_compared ≡ length c.routes)
    × (s.regions_compared ≡ total_regions c.routes)
    × (s.improved ≡ total_in_class improved c.routes)
    × (s.regressed ≡ total_in_class regressed c.routes)
    × (s.missing_previous ≡ total_in_class missing_previous c.routes)
    × (s.missing_current ≡ total_in_class missing_current c.routes)
    × (s.improved + s.regressed + s.unchanged + s.missing_previous + s.missing_current
        ≡ s.regions_compared)
build_check_profile_comparison_totals_example =
    build_check_profile_comparison_totals (λ (a b : ℕ). a) first_run run_jobs (some second_run)
      run_jobs latest_previous

build_check_profile_comparison_routes_example :
    let ids =
      ids_compared
        (build_check_profile_comparison
          (λ (a b : ℕ). a)
          first_run
          run_jobs
          (some second_run)
          run_jobs
          latest_previous).routes in
    Distinct [] ids
    × ((id : String)
        → includes id ids ≡ (
            includes id (route_ids first_run.routes)
            || includes id (compared_route_ids (some second_run))))
build_check_profile_comparison_routes_example =
    build_check_profile_comparison_routes (λ (a b : ℕ). a) first_run run_jobs (some second_run)
      run_jobs latest_previous

abbrev home : RunRouteJob
home = record {
  route_id = "home";
  route_label = "Home";
  url = "https://example.org/";
  job = some (probe_job "job-1" mixed_targets);
}

compare_route_regions_example :
    let regions =
      regions_compared_in (compare_route (λ (a b : ℕ). a) (some home) none "home").regions in
    Distinct [] regions
    × ((region : String)
        → includes region regions ≡ (
            includes region (regions_of (targets_of (chain (some home) (λ r. r.job))))
            || includes region
                (regions_of (targets_of (chain {A = RunRouteJob} none (λ r. r.job))))))
compare_route_regions_example = compare_route_regions (λ (a b : ℕ). a) (some home) none "home"

abbrev fast : LatencyJobTarget
fast = target "tokyo" TargetStatus.succeeded (some 80) (some true)

abbrev slow : LatencyJobTarget
slow = target "tokyo" TargetStatus.succeeded (some 120) (some true)

faster :
    classify_run_delta
      (some fast)
      (some slow)
      (some (probe_job "job-2" []))
      (some (probe_job "job-1" []))
    ≡ improved
unfolding classify_run_delta
faster = refl

classify_run_delta-mirror_example :
    classify_run_delta
      (some slow)
      (some fast)
      (some (probe_job "job-1" []))
      (some (probe_job "job-2" []))
    ≡ mirror (
        classify_run_delta
          (some fast)
          (some slow)
          (some (probe_job "job-2" []))
          (some (probe_job "job-1" [])))
classify_run_delta-mirror_example =
    classify_run_delta-mirror (some fast) (some slow) (some (probe_job "job-2" []))
      (some (probe_job "job-1" [])) refl refl refl
