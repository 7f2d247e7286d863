-- ===== src/Report/Comparison/Summary.antt =====
-- summarizeRunComparison of packages/report-core/src/index.ts.
use webperf_selfhosted.Base.{◌+◌, List, [], ◌∷◌}
use webperf_selfhosted.Report.Comparison.Types.{
  Classification, improved, regressed, unchanged, missing_previous, missing_current,
  RegionComparison, RouteComparison, ComparisonSummary,
}

abbrev pub count_class : Classification → ComparisonSummary → ComparisonSummary
count_class improved s = record s { improved = s.improved + 1 }
count_class regressed s = record s { regressed = s.regressed + 1 }
count_class missing_previous s = record s { missing_previous = s.missing_previous + 1 }
count_class missing_current s = record s { missing_current = s.missing_current + 1 }
count_class unchanged s = record s { unchanged = s.unchanged + 1 }

abbrev pub empty_summary : ComparisonSummary
empty_summary = record {
  routes_compared = 0;
  regions_compared = 0;
  improved = 0;
  regressed = 0;
  unchanged = 0;
  missing_previous = 0;
  missing_current = 0;
}

module _ {Percent : Type 0} where
  unfoldable pub summarize_regions :
      ComparisonSummary → List (RegionComparison Percent) → ComparisonSummary
  summarize_regions s [] = s
  summarize_regions s (r ∷ rs) =
      summarize_regions
        (count_class r.classification (record s { regions_compared = s.regions_compared + 1 })) rs

  unfoldable pub summarize_routes :
      ComparisonSummary → List (RouteComparison Percent) → ComparisonSummary
  summarize_routes s [] = s
  summarize_routes s (r ∷ rs) =
      summarize_routes
        (summarize_regions (record s { routes_compared = s.routes_compared + 1 }) r.regions) rs

  unfoldable pub summarize_run_comparison : List (RouteComparison Percent) → ComparisonSummary
  unfolding summarize_routes summarize_regions
  summarize_run_comparison routes = summarize_routes empty_summary routes
