-- ===== src/Tests/Runs.antt =====
-- A run of a check profile by hand, and the theorem on it.
use webperf_selfhosted.Base.{List, none, [], ◌∷◌}
use webperf_selfhosted.Queue.Types.{sealed}
use webperf_selfhosted.Report.Types.{LatencyJobDetail}
use webperf_selfhosted.Control.Types.{CheckProfile, RouteSet, Answer, answered, refused, Store}
use webperf_selfhosted.Control.Runs.{handle_run_check_profile}
use webperf_selfhosted.Tests.Control.{platform, deployment, db}

abbrev pub profile : CheckProfile
profile = record {
  id = "profile_3";
  property_id = "property_1";
  route_set_id = "routeset_2";
  name = "hourly";
  note = none;
  request = none;
  monitor_policy = none;
  alerts = none;
  browser_audit_policy = none;
  schedule = none;
  baseline = none;
  location_migration = none;
  created_at = 3000;
  updated_at = 3000;
}

abbrev pub routes : RouteSet
routes = record {
  id = "routeset_2";
  property_id = "property_1";
  name = "pages";
  routes = record { id = "route_2"; label = "home"; url = "http://site/" } ∷ [];
  created_at = 2000;
  updated_at = 2000;
}

abbrev runnable : Store
runnable = record {
  properties = [];
  route_sets = ("routeset_2", sealed routes) ∷ [];
  check_profiles = ("profile_3", sealed profile) ∷ [];
  database = db;
}

abbrev ran : Answer (List LatencyJobDetail) × Store
ran = handle_run_check_profile platform deployment "profile_3" 5000 runnable

abbrev jobs_in : Answer (List LatencyJobDetail) → List LatencyJobDetail
jobs_in (answered code jobs) = jobs
jobs_in (refused code) = []
