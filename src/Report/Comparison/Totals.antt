-- ===== src/Report/Comparison/Totals.antt =====
-- The summary of a comparison counts each region of each route once, under its classification.
use webperf_selfhosted.Base.{
  ℕ, ◌+◌, ◌≡◌, refl, Bool, true, false, Option, List, [], ◌∷◌, arith, length, count,
}
use webperf_selfhosted.Report.Types.{LatencyJobDetail, CheckProfileRun}
use webperf_selfhosted.Report.Comparison.Types.{
  Classification, improved, regressed, unchanged, missing_previous, missing_current,
  RegionComparison, RouteComparison, ComparisonSummary, ComparisonMode,
}
use webperf_selfhosted.Report.Comparison.{build_check_profile_comparison}
use webperf_selfhosted.Report.Comparison.Summary.{
  count_class, empty_summary, summarize_regions, summarize_routes, summarize_run_comparison,
}

abbrev pub same_class : Classification → Classification → Bool
same_class improved improved = true
same_class regressed regressed = true
same_class unchanged unchanged = true
same_class missing_previous missing_previous = true
same_class missing_current missing_current = true
same_class _ _ = false

-- `t` is `s` with these numbers of routes, of regions and of each class counted in.
record Adds (s t : ComparisonSummary) (routes regions i r u p c : ℕ) : Type 0 where
  at_routes : t.routes_compared ≡ s.routes_compared + routes
  at_regions : t.regions_compared ≡ s.regions_compared + regions
  at_improved : t.improved ≡ s.improved + i
  at_regressed : t.regressed ≡ s.regressed + r
  at_unchanged : t.unchanged ≡ s.unchanged + u
  at_previous : t.missing_previous ≡ s.missing_previous + p
  at_current : t.missing_current ≡ s.missing_current + c

module _ {Percent : Type 0} where
  abbrev pub in_class : Classification → List (RegionComparison Percent) → ℕ
  in_class c = count (λ r. same_class r.classification c)

  -- Over all routes.
  abbrev pub total_in_class : Classification → List (RouteComparison Percent) → ℕ
  total_in_class c [] = 0
  total_in_class c (r ∷ rs) = in_class c r.regions + total_in_class c rs

  abbrev pub total_regions : List (RouteComparison Percent) → ℕ
  total_regions [] = 0
  total_regions (r ∷ rs) = length r.regions + total_regions rs

  abbrev AddsRegions :
      ComparisonSummary → ComparisonSummary → ℕ → List (RegionComparison Percent) → Type 0
  AddsRegions s t routes rs =
      Adds s t routes (length rs) (in_class improved rs) (in_class regressed rs)
        (in_class unchanged rs) (in_class missing_previous rs) (in_class missing_current rs)

  count_class-Adds :
      (s : ComparisonSummary) (r : RegionComparison Percent)
      → AddsRegions s
          (count_class r.classification (record s { regions_compared = s.regions_compared + 1 }))
          0
          (r ∷ [])
  count_class-Adds s r = ground arith

  summarize_regions-Adds :
      (s : ComparisonSummary) (rs : List (RegionComparison Percent))
      → AddsRegions s (summarize_regions s rs) 0 rs
  unfolding summarize_regions
  summarize_regions-Adds s [] = omega arith
  summarize_regions-Adds s (r ∷ rs) =
      let t =
        count_class r.classification (record s { regions_compared = s.regions_compared + 1 }) in
      omega (arith, count_class-Adds s r, summarize_regions-Adds t rs)

  summarize_routes-Adds :
      (s : ComparisonSummary) (rs : List (RouteComparison Percent))
      → Adds s
          (summarize_routes s rs)
          (length rs)
          (total_regions rs)
          (total_in_class improved rs)
          (total_in_class regressed rs)
          (total_in_class unchanged rs)
          (total_in_class missing_previous rs)
          (total_in_class missing_current rs)
  unfolding summarize_routes
  summarize_routes-Adds s [] = omega arith
  summarize_routes-Adds s (r ∷ rs) =
      let s' = record s { routes_compared = s.routes_compared + 1 } in
      omega (
        arith,
        summarize_regions-Adds s' r.regions,
        summarize_routes-Adds (summarize_regions s' r.regions) rs,
      )

  classes_cover :
      (rs : List (RegionComparison Percent))
      → in_class improved rs
          + in_class regressed rs
          + in_class unchanged rs
          + in_class missing_previous rs
          + in_class missing_current rs
        ≡ length rs
  classes_cover [] = refl
  classes_cover (r ∷ rs) = ground (arith, classes_cover rs)

  total_classes_cover :
      (rs : List (RouteComparison Percent))
      → total_in_class improved rs
          + total_in_class regressed rs
          + total_in_class unchanged rs
          + total_in_class missing_previous rs
          + total_in_class missing_current rs
        ≡ total_regions rs
  total_classes_cover [] = refl
  total_classes_cover (r ∷ rs) = omega (arith, classes_cover r.regions, total_classes_cover rs)

module _ {Percent : Type 0} where
  totals :
      (rs : List (RouteComparison Percent))
      → let s = summarize_run_comparison rs in
        (s.routes_compared ≡ length rs)
        × (s.regions_compared ≡ total_regions rs)
        × (s.improved ≡ total_in_class improved rs)
        × (s.regressed ≡ total_in_class regressed rs)
        × (s.missing_previous ≡ total_in_class missing_previous rs)
        × (s.missing_current ≡ total_in_class missing_current rs)
        × (s.improved + s.regressed + s.unchanged + s.missing_previous + s.missing_current
            ≡ s.regions_compared)
  unfolding summarize_run_comparison
  totals rs = omega (arith, summarize_routes-Adds empty_summary rs, total_classes_cover rs)

module _ {Percent : Type 0} (delta_pct : ℕ → ℕ → Percent) where
  -- The summary of a comparison: as many routes and regions as there are, each class counted over
  -- all of them, and the five classes make up the regions.
  pub build_check_profile_comparison_totals :
      (run : CheckProfileRun) (jobs : List LatencyJobDetail) (compared : Option CheckProfileRun)
      (compared_jobs : List LatencyJobDetail) (mode : ComparisonMode)
      → let c = build_check_profile_comparison delta_pct run jobs compared compared_jobs mode in
        let s = c.summary in
        (s.routes_compared ≡ length c.routes)
        × (s.regions_compared ≡ total_regions c.routes)
        × (s.improved ≡ total_in_class improved c.routes)
        × (s.regressed ≡ total_in_class regressed c.routes)
        × (s.missing_previous ≡ total_in_class missing_previous c.routes)
        × (s.missing_current ≡ total_in_class missing_current c.routes)
        × (s.improved + s.regressed + s.unchanged + s.missing_previous + s.missing_current
            ≡ s.regions_compared)
  unfolding build_check_profile_comparison
  build_check_profile_comparison_totals run jobs compared compared_jobs mode =
      totals (build_check_profile_comparison delta_pct run jobs compared compared_jobs mode).routes
