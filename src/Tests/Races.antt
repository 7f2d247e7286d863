-- ===== src/Tests/Races.antt =====
-- An update of a route set whose body comes late: the route set that it read has changed since.
use webperf_selfhosted.Base.{String, ◌≡◌, refl, some, [], ◌∷◌}
use webperf_selfhosted.Queue.Types.{sealed}
use webperf_selfhosted.Control.Types.{Property, Store}
use webperf_selfhosted.Control.Store.{
  get_entity, save_entity, decoded, latest_first, list_route_sets, list_check_profiles,
}
use webperf_selfhosted.Control.Inputs.{
  require_trimmed_text, measured_url, sanitize_route_inputs, ensure_unique_route_set,
}
use webperf_selfhosted.Control.Handlers.{handle_upsert_route_set}
use webperf_selfhosted.Control.Integrity.{property_id_of}
use webperf_selfhosted.Tests.Control.{platform, db, pages}
use webperf_selfhosted.Tests.Runs.{profile, routes}

abbrev site : String → Property
site id = record { id = id; name = id; base_url = id; created_at = 1000; updated_at = 1000 }

-- Since the read, the route set has moved to another property, and a profile uses it there.
abbrev moved : Store
moved = record {
  properties =
      ("property_1", sealed (site "property_1")) ∷ ("property_4", sealed (site "property_4")) ∷ [];
  route_sets = ("routeset_2", sealed (record routes { property_id = "property_4" })) ∷ [];
  check_profiles = ("profile_3", sealed (record profile { property_id = "property_4" })) ∷ [];
  database = db;
}

late_update_moves_used :
    property_id_of (
      get_entity "routeset_2"
        (handle_upsert_route_set platform (some pages) (some routes) 9000 moved).1.route_sets)
    ≡ some "property_1"
unfolding get_entity handle_upsert_route_set save_entity require_trimmed_text measured_url
    sanitize_route_inputs ensure_unique_route_set list_route_sets list_check_profiles decoded
    latest_first
late_update_moves_used = refl

-- Since the read, the route set has been deleted.
late_update_restores :
    property_id_of (
      get_entity "routeset_2"
        (handle_upsert_route_set platform
          (some pages)
          (some routes)
          9000
          (record moved { route_sets = []; check_profiles = [] })).1.route_sets)
    ≡ some "property_1"
unfolding get_entity handle_upsert_route_set save_entity require_trimmed_text measured_url
    sanitize_route_inputs ensure_unique_route_set list_route_sets list_check_profiles decoded
    latest_first
late_update_restores = refl
