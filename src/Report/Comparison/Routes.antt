-- ===== src/Report/Comparison/Routes.antt =====
-- Which routes and regions a comparison has.
use webperf_selfhosted.Base.{
  ℕ, String, ◌≡◌, refl, ap, ◌||◌, Option, none, some, List, [], ◌∷◌, ◌++◌, Distinct,
  set_from-Distinct, includes, includes-union, includes-keys, map_keys, map_from, set_from,
}
use webperf_selfhosted.Report.Types.{LatencyJobDetail, CheckProfileRun, RunRoute}
use webperf_selfhosted.Report.Comparison.Types.{
  RunRouteJob, RegionComparison, RouteComparison, ComparisonMode,
}
use webperf_selfhosted.Report.Comparison.{
  chain, compare_regions, compare_route, compare_routes, build_run_route_jobs, route_jobs,
  route_entries, compared_route_jobs, regions_of, targets_of, build_check_profile_comparison,
}

abbrev pub route_ids : List RunRoute → List String
route_ids [] = []
route_ids (r ∷ rs) = r.route_id ∷ route_ids rs

abbrev pub compared_route_ids : Option CheckProfileRun → List String
compared_route_ids none = []
compared_route_ids (some run) = route_ids run.routes

module _ {Percent : Type 0} where
  abbrev pub ids_compared : List (RouteComparison Percent) → List String
  ids_compared [] = []
  ids_compared (r ∷ rs) = r.route_id ∷ ids_compared rs

  abbrev pub regions_compared_in : List (RegionComparison Percent) → List String
  regions_compared_in [] = []
  regions_compared_in (r ∷ rs) = r.region ∷ regions_compared_in rs

build_keys :
    (m : List (String × LatencyJobDetail)) (rs : List RunRoute)
    → map_keys (route_entries (route_jobs m rs)) ≡ route_ids rs
unfolding map_keys route_entries
build_keys m [] = refl
build_keys m (r ∷ rs) = ap (λ (ks : List String). r.route_id ∷ ks) (build_keys m rs)

run_keys :
    (run : CheckProfileRun) (jobs : List LatencyJobDetail)
    → map_keys (route_entries (build_run_route_jobs run jobs)) ≡ route_ids run.routes
unfolding build_run_route_jobs
run_keys run jobs = build_keys _ run.routes

compared_keys :
    (run : Option CheckProfileRun) (jobs : List LatencyJobDetail)
    → map_keys (route_entries (compared_route_jobs run jobs)) ≡ compared_route_ids run
unfolding compared_route_jobs
compared_keys none jobs = unfold map_keys route_entries in refl
compared_keys (some run) jobs = run_keys run jobs

module _ {Percent : Type 0} (delta_pct : ℕ → ℕ → Percent) where
  ids-compare_routes :
      (a b : List (String × RunRouteJob)) (ids : List String)
      → ids_compared (compare_routes delta_pct a b ids) ≡ ids
  unfolding compare_routes
  ids-compare_routes a b [] = refl
  ids-compare_routes a b (id ∷ ids) =
      ap (λ (ks : List String). id ∷ ks) (ids-compare_routes a b ids)

  regions-compare_regions :
      (a b : Option LatencyJobDetail) (rs : List String)
      → regions_compared_in (compare_regions delta_pct a b rs) ≡ rs
  unfolding compare_regions
  regions-compare_regions a b [] = refl
  regions-compare_regions a b (r ∷ rs) =
      ap (λ (ks : List String). r ∷ ks) (regions-compare_regions a b rs)

  -- The routes of a comparison are those of either run, each once.
  pub build_check_profile_comparison_routes :
      (run : CheckProfileRun) (jobs : List LatencyJobDetail) (compared : Option CheckProfileRun)
      (compared_jobs : List LatencyJobDetail) (mode : ComparisonMode)
      → let ids =
          ids_compared
            (build_check_profile_comparison delta_pct run jobs compared compared_jobs
              mode).routes in
        Distinct [] ids
        × ((id : String)
            → includes id ids
              ≡ (includes id (route_ids run.routes) || includes id (compared_route_ids compared)))
  unfolding build_check_profile_comparison
  build_check_profile_comparison_routes run jobs compared compared_jobs mode =
      let a = map_from [] (route_entries (build_run_route_jobs run jobs)) in
      let b = map_from [] (route_entries (compared_route_jobs compared compared_jobs)) in
      let ids = set_from [] (map_keys a ++ map_keys b) in
      rw (ids-compare_routes a b ids) (
        set_from-Distinct [] (map_keys a ++ map_keys b),
        λ id. rw (
          includes-union id (map_keys a) (map_keys b),
          includes-keys id (route_entries (build_run_route_jobs run jobs)),
          includes-keys id (route_entries (compared_route_jobs compared compared_jobs)),
          run_keys run jobs,
          compared_keys compared compared_jobs,
        ),
      )

  -- The regions of a route are those of the targets of either job, each once.
  pub compare_route_regions :
      (current previous : Option RunRouteJob) (id : String)
      → let regions = regions_compared_in (compare_route delta_pct current previous id).regions in
        Distinct [] regions
        × ((region : String)
            → includes region regions ≡ (
                includes region (regions_of (targets_of (chain current (λ r. r.job))))
                || includes region (regions_of (targets_of (chain previous (λ r. r.job))))))
  unfolding compare_route
  compare_route_regions current previous id =
      let xs = regions_of (targets_of (chain current (λ r. r.job))) in
      let ys = regions_of (targets_of (chain previous (λ r. r.job))) in
      rw
        (regions-compare_regions (chain current (λ r. r.job)) (chain previous (λ r. r.job))
          (set_from [] (xs ++ ys)))
        (set_from-Distinct [] (xs ++ ys), λ region. includes-union region xs ys)
