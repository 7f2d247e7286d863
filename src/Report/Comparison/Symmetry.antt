-- ===== src/Report/Comparison/Symmetry.antt =====
-- What a comparison classifies when its two sides change places, or are the same run.
use webperf_selfhosted.Base.{
  ℕ, String, ◌≡◌, ◌≢◌, refl, Bool, true, false, ◌||◌, Option, none, some, List, [], ◌∷◌, ◌++◌,
  arith, All, includes, set_from, map_get, map_from, All-set_from, includes_self, All-append,
}
use webperf_selfhosted.Report.Types.{LatencyJobTarget, LatencyJobDetail, CheckProfileRun}
use webperf_selfhosted.Report.Comparison.Types.{
  RunRouteJob, Classification, improved, regressed, unchanged, missing_previous, missing_current,
  RegionComparison, ComparisonMode,
}
use webperf_selfhosted.Report.Comparison.{
  chain, target_in, targets_of, regions_of, compare_regions, compare_route, compare_routes,
  build_run_route_jobs, route_entries, build_check_profile_comparison,
}
use webperf_selfhosted.Report.Comparison.Delta.{classify_targets, classify_run_delta}
use webperf_selfhosted.Report.Comparison.Totals.{
  in_class, total_in_class, build_check_profile_comparison_totals,
}

abbrev pub mirror : Classification → Classification
mirror improved = regressed
mirror regressed = improved
mirror unchanged = unchanged
mirror missing_previous = missing_current
mirror missing_current = missing_previous

-- A side that has both its target and its job.
abbrev pub is_present : Option LatencyJobTarget → Option LatencyJobDetail → Bool
is_present (some t) (some j) = true
is_present _ _ = false

-- Whether a target that is there says if it succeeded.
abbrev pub has_success : Option LatencyJobTarget → Bool
has_success none = true
has_success (some t) = elim t.success [ none ↦ false | some b ↦ true ]

-- Where one side at least is there, and the targets say whether they succeeded, the two sides
-- exchanged have the mirrored classification: improved and regressed change places, and so do the
-- two missing sides.
pub classify_run_delta-mirror :
    (c p : Option LatencyJobTarget) (i j : Option LatencyJobDetail)
    → (is_present c i || is_present p j) ≡ true
    → has_success c ≡ true
    → has_success p ≡ true
    → classify_run_delta p c j i ≡ mirror (classify_run_delta c p i j)
unfolding classify_run_delta
classify_run_delta-mirror c p i j h hc hp = ground arith

found :
    (region : String) (ts : List LatencyJobTarget)
    → includes region (regions_of ts) ≡ true
    → target_in region ts ≢ none
unfolding includes
found region [] h = cc
found region (t ∷ ts) h = ground (arith, found region ts)

classify_self : (t : LatencyJobTarget) → classify_targets t t ≡ unchanged
classify_self t = ground arith

module _ {Percent : Type 0} (delta_pct : ℕ → ℕ → Percent) where
  abbrev AllUnchanged : List (RegionComparison Percent) → Type 0
  AllUnchanged = All (λ r. r.classification ≡ unchanged)

  self_region :
      (j : LatencyJobDetail) (t : Option LatencyJobTarget)
      → t ≢ none
      → classify_run_delta t t (some j) (some j) ≡ unchanged
  unfolding classify_run_delta
  self_region j none h = absurd (h refl)
  self_region j (some t) h = classify_self t

  self_regions :
      (j : LatencyJobDetail) (rs : List String)
      → All (λ r. includes r (regions_of j.targets) ≡ true) rs
      → AllUnchanged (compare_regions delta_pct (some j) (some j) rs)
  unfolding compare_regions
  self_regions j [] h = tt
  self_regions j (r ∷ rs) h =
      (self_region j (target_in r j.targets) (found r j.targets h.0), self_regions j rs h.1)

  self_route :
      (r : Option RunRouteJob) (id : String) → AllUnchanged (compare_route delta_pct r r id).regions
  unfolding compare_route
  self_route r id = of_job (chain r (λ r. r.job))
    where
      of_job :
          (j : Option LatencyJobDetail)
          → AllUnchanged (
              compare_regions delta_pct j j
                (set_from [] (regions_of (targets_of j) ++ regions_of (targets_of j))))
      of_job none = unfold set_from in tt
      of_job (some j) =
          let rs = regions_of j.targets in
          let all = includes_self rs in
          self_regions j _ (
            All-set_from (λ r. includes r rs ≡ true) [] (rs ++ rs)
              (All-append (λ r. includes r rs ≡ true) rs rs all all))

  unchanged_counts :
      (rs : List (RegionComparison Percent))
      → AllUnchanged rs
      → (in_class improved rs ≡ 0)
        × (in_class regressed rs ≡ 0)
        × (in_class missing_previous rs ≡ 0)
        × (in_class missing_current rs ≡ 0)
  unchanged_counts [] h = omega arith
  unchanged_counts (r ∷ rs) h = ground (arith, h.0, unchanged_counts rs h.1)

  self_routes :
      (m : List (String × RunRouteJob)) (ids : List String)
      → let rs = compare_routes delta_pct m m ids in
        (total_in_class improved rs ≡ 0)
        × (total_in_class regressed rs ≡ 0)
        × (total_in_class missing_previous rs ≡ 0)
        × (total_in_class missing_current rs ≡ 0)
  unfolding compare_routes
  self_routes m [] = omega arith
  self_routes m (id ∷ ids) =
      omega (arith, unchanged_counts _ (self_route (map_get id m) id), self_routes m ids)

  self_totals :
      (run : CheckProfileRun) (jobs : List LatencyJobDetail) (mode : ComparisonMode)
      → let rs = (build_check_profile_comparison delta_pct run jobs (some run) jobs mode).routes in
        (total_in_class improved rs ≡ 0)
        × (total_in_class regressed rs ≡ 0)
        × (total_in_class missing_previous rs ≡ 0)
        × (total_in_class missing_current rs ≡ 0)
  unfolding build_check_profile_comparison
  self_totals run jobs mode =
      self_routes (map_from [] (route_entries (build_run_route_jobs run jobs))) _

  -- A run compared with itself, over the same jobs, has every region unchanged.
  pub build_check_profile_comparison_self :
      (run : CheckProfileRun) (jobs : List LatencyJobDetail) (mode : ComparisonMode)
      → let s = (build_check_profile_comparison delta_pct run jobs (some run) jobs mode).summary in
        (s.improved ≡ 0)
        × (s.regressed ≡ 0)
        × (s.missing_previous ≡ 0)
        × (s.missing_current ≡ 0)
        × (s.unchanged ≡ s.regions_compared)
  build_check_profile_comparison_self run jobs mode =
      let t = build_check_profile_comparison_totals delta_pct run jobs (some run) jobs mode in
      let z = self_totals run jobs mode in omega (arith, t, z)
