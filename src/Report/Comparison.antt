-- ===== src/Report/Comparison.antt =====
-- packages/report-core/src/index.ts: the comparison of two runs, route by route and region by region.
-- The percentage of a latency change is a parameter, since it is computed in floating point.
pub mod Types
pub mod Delta
pub mod Summary
pub mod Totals
pub mod Routes
pub mod Symmetry
use webperf_selfhosted.Base.{
  ℕ, zero, suc, ◌+◌, String, Bool, true, false, not, ◌&&◌, Option, none, some, List, [], ◌∷◌, ◌++◌,
  map, ltb, find, if◌then◌else◌, ◌=ₛ◌, ℤ, sub_ℕ, map_get, map_from, map_keys, set_from,
}
use webperf_selfhosted.Report.Types.{
  LatencyJobTarget, LatencyJobDetail, CheckProfileRun, RunRoute, JobStatus, ProbeMeasurement,
}
use webperf_selfhosted.Report.Comparison.Types.{
  RunRouteJob, Classification, improved, regressed, unchanged, missing_previous, missing_current,
  RegionComparison, RouteComparison, ComparisonSummary, ComparisonMode, Comparison, latest_previous,
}
use webperf_selfhosted.Report.Comparison.Delta.{
  is_true, same_success, classify_latency, classify_targets, classify_run_delta, same_job_status,
  same_optional_status,
}
use webperf_selfhosted.Report.Comparison.Summary.{
  count_class, empty_summary, summarize_regions, summarize_routes, summarize_run_comparison,
}

-- `(a?.f ?? b?.f) ?? c` of optional values.
abbrev pub or_else {ℓ} : {A : Type ℓ} → Option A → A → A
or_else none d = d
or_else (some a) d = a

abbrev pub first_some {ℓ} : {A : Type ℓ} → Option A → Option A → Option A
first_some none o = o
first_some (some a) o = some a

-- `o?.f ?? null`
abbrev pub chain {ℓ κ} : {A : Type ℓ} {B : Type κ} → Option A → (A → Option B) → Option B
chain none f = none
chain (some a) f = f a

abbrev pub job_entries : List LatencyJobDetail → List (String × LatencyJobDetail)
job_entries [] = []
job_entries (j ∷ js) = (j.id, j) ∷ job_entries js

abbrev pub route_jobs : List (String × LatencyJobDetail) → List RunRoute → List RunRouteJob
route_jobs job_map [] = []
route_jobs job_map (r ∷ rs) =
    record {
      route_id = r.route_id;
      route_label = r.route_label;
      url = r.url;
      job = map_get r.job_id job_map;
    }
    ∷ route_jobs job_map rs

unfoldable pub build_run_route_jobs : CheckProfileRun → List LatencyJobDetail → List RunRouteJob
build_run_route_jobs run jobs = route_jobs (map_from [] (job_entries jobs)) run.routes

abbrev pub target_in : String → List LatencyJobTarget → Option LatencyJobTarget
target_in region = find (λ t. t.region =ₛ region)

abbrev pub targets_of : Option LatencyJobDetail → List LatencyJobTarget
targets_of none = []
targets_of (some j) = j.targets

abbrev pub regions_of : List LatencyJobTarget → List String
regions_of [] = []
regions_of (t ∷ ts) = t.region ∷ regions_of ts

abbrev pub latency_delta : Option ℕ → Option ℕ → Option ℤ
latency_delta (some current) (some previous) = some (sub_ℕ current previous)
latency_delta _ _ = none

-- The entries of `new Map(routeJobs.map((item) => [item.routeId, item]))`.
unfoldable pub route_entries : List RunRouteJob → List (String × RunRouteJob)
route_entries [] = []
route_entries (r ∷ rs) = (r.route_id, r) ∷ route_entries rs

unfoldable pub compared_route_jobs :
    Option CheckProfileRun → List LatencyJobDetail → List RunRouteJob
unfolding build_run_route_jobs
compared_route_jobs none jobs = []
compared_route_jobs (some run) jobs = build_run_route_jobs run jobs

-- `delta_pct current previous` is the code's rounding of the change against a previous latency
-- that is not 0.
module _ {Percent : Type 0} (delta_pct : ℕ → ℕ → Percent) where
  abbrev latency_pct : Option ℕ → Option ℕ → Option Percent
  latency_pct (some current) (some previous) =
      if ltb 0 previous then some (delta_pct current previous) else none
  latency_pct _ _ = none

  unfoldable pub compare_region :
      Option LatencyJobDetail → Option LatencyJobDetail → String → RegionComparison Percent
  unfolding classify_run_delta
  compare_region current previous region =
      let current_target = target_in region (targets_of current) in
      let previous_target = target_in region (targets_of previous) in
      let current_latency = chain current_target (λ t. t.latency_ms) in
      let previous_latency = chain previous_target (λ t. t.latency_ms) in
      let current_status = chain current (λ j. some j.status) in
      let previous_status = chain previous (λ j. some j.status) in
      record {
        region = region;
        current_job_id = chain current (λ j. some j.id);
        previous_job_id = chain previous (λ j. some j.id);
        current_status = current_status;
        previous_status = previous_status;
        current_latency_ms = current_latency;
        previous_latency_ms = previous_latency;
        current_status_code = chain current_target (λ t. t.status_code);
        previous_status_code = chain previous_target (λ t. t.status_code);
        current_final_url = chain current_target (λ t. chain t.measurement (λ m. m.final_url));
        previous_final_url = chain previous_target (λ t. chain t.measurement (λ m. m.final_url));
        current_probe_impl = chain current_target (λ t. t.probe_impl);
        previous_probe_impl = chain previous_target (λ t. t.probe_impl);
        current_error_message = chain current_target (λ t. t.error_message);
        previous_error_message = chain previous_target (λ t. t.error_message);
        latency_delta_ms = latency_delta current_latency previous_latency;
        latency_delta_pct = latency_pct current_latency previous_latency;
        classification = classify_run_delta current_target previous_target current previous;
        status_changed = not (same_optional_status current_status previous_status);
      }

  unfoldable pub compare_regions :
      Option LatencyJobDetail
      → Option LatencyJobDetail
      → List String
      → List (RegionComparison Percent)
  unfolding compare_region
  compare_regions current previous [] = []
  compare_regions current previous (r ∷ rs) =
      compare_region current previous r ∷ compare_regions current previous rs

  unfoldable pub compare_route :
      Option RunRouteJob → Option RunRouteJob → String → RouteComparison Percent
  unfolding compare_regions
  compare_route current previous route_id =
      let current_job = chain current (λ r. r.job) in
      let previous_job = chain previous (λ r. r.job) in
      record {
        route_id = route_id;
        route_label =
            or_else
              (first_some (chain current (λ r. some r.route_label))
                (chain previous (λ r. some r.route_label)))
              route_id;
        url =
            or_else
              (first_some (chain current (λ r. some r.url)) (chain previous (λ r. some r.url)))
              "http://invalid.local";
        regions = compare_regions current_job previous_job (
            set_from []
              (regions_of (targets_of current_job) ++ regions_of (targets_of previous_job)));
      }

  unfoldable pub compare_routes :
      List (String × RunRouteJob)
      → List (String × RunRouteJob)
      → List String
      → List (RouteComparison Percent)
  unfolding compare_route
  compare_routes current_map compared_map [] = []
  compare_routes current_map compared_map (id ∷ ids) =
      compare_route (map_get id current_map) (map_get id compared_map) id
      ∷ compare_routes current_map compared_map ids

  unfoldable pub build_check_profile_comparison :
      CheckProfileRun
      → List LatencyJobDetail
      → Option CheckProfileRun
      → List LatencyJobDetail
      → ComparisonMode
      → Comparison Percent
  unfolding compare_routes build_run_route_jobs route_entries compared_route_jobs
      summarize_run_comparison
  build_check_profile_comparison current_run current_jobs compared_run compared_jobs mode =
      let current_map =
        map_from [] (route_entries (build_run_route_jobs current_run current_jobs)) in
      let compared_map =
        map_from [] (route_entries (compared_route_jobs compared_run compared_jobs)) in
      let route_ids = set_from [] (map_keys current_map ++ map_keys compared_map) in
      let routes = compare_routes current_map compared_map route_ids in
      record {
        current_run = current_run;
        compared_run = compared_run;
        mode = mode;
        summary = summarize_run_comparison routes;
        routes = routes;
      }

  unfoldable pub compare_check_profile_runs :
      CheckProfileRun
      → List LatencyJobDetail
      → Option CheckProfileRun
      → List LatencyJobDetail
      → ComparisonSummary × List (RouteComparison Percent)
  unfolding build_check_profile_comparison
  compare_check_profile_runs current_run current_jobs previous_run previous_jobs =
      let c =
        build_check_profile_comparison current_run current_jobs previous_run previous_jobs
          latest_previous in
      (c.summary, c.routes)
