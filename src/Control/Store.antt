-- ===== src/Control/Store.antt =====
-- apps/api/src/repository.ts: the entities of `saved_entities`, one table for each kind, and the runs. A
-- row is stored under the entity's id; a row that does not decode is skipped when it is read.
pub mod Laws
use webperf_selfhosted.Base.{
  ℕ, String, Option, List, [], ◌∷◌, map_get, map_set, ltb, filter, if◌then◌else◌, ◌=ₛ◌,
}
use webperf_selfhosted.Report.Types.{CheckProfileRun}
use webperf_selfhosted.Queue.Types.{Stored, sealed, corrupt}
use webperf_selfhosted.Queue.Sync.{readable}
use webperf_selfhosted.Control.Types.{Property, RouteSet, CheckProfile, Store}

module _ {E : Type 0} where
  unfoldable pub get_entity : String → List (String × Stored E) → Option E
  unfolding map_get
  get_entity id rows = readable (map_get id rows)

  unfoldable pub save_entity : String → E → List (String × Stored E) → List (String × Stored E)
  unfolding map_set
  save_entity id entity rows = map_set id (sealed entity) rows

  unfoldable pub delete_entity : String → List (String × Stored E) → List (String × Stored E)
  delete_entity id [] = []
  delete_entity id ((key, entity) ∷ rows) =
      let rest = delete_entity id rows in if key =ₛ id then rest else (key, entity) ∷ rest

  -- The rows that decode, in the table's order.
  unfoldable pub decoded : List (String × Stored E) → List E
  decoded [] = []
  decoded ((key, sealed entity) ∷ rows) = entity ∷ decoded rows
  decoded ((key, corrupt) ∷ rows) = decoded rows

  -- `ORDER BY … DESC` by the column that `at` reads.
  unfoldable pub insert_latest : (E → ℕ) → E → List E → List E
  insert_latest at entity [] = entity ∷ []
  insert_latest at entity (e ∷ es) =
      let rest = insert_latest at entity es in
      if ltb (at entity) (at e) then e ∷ rest else entity ∷ e ∷ es

  unfoldable pub latest_first : (E → ℕ) → List E → List E
  unfolding insert_latest
  latest_first at [] = []
  latest_first at (e ∷ es) = insert_latest at e (latest_first at es)

unfoldable pub list_properties : Store → List Property
list_properties store = latest_first (λ (p : Property). p.updated_at) (decoded store.properties)

unfoldable pub list_route_sets : Store → List RouteSet
list_route_sets store = latest_first (λ (r : RouteSet). r.updated_at) (decoded store.route_sets)

unfoldable pub list_check_profiles : Store → List CheckProfile
list_check_profiles store =
    latest_first (λ (p : CheckProfile). p.updated_at) (decoded store.check_profiles)

unfoldable pub list_check_profile_runs : String → Store → List CheckProfileRun
list_check_profile_runs profile_id store =
    latest_first (λ (r : CheckProfileRun). r.created_at)
      (filter (λ (r : CheckProfileRun). r.profile_id =ₛ profile_id) (decoded store.database.runs))

abbrev pub save_property : Property → Store → Store
save_property p store = record store { properties = save_entity p.id p store.properties }

abbrev pub save_route_set : RouteSet → Store → Store
save_route_set r store = record store { route_sets = save_entity r.id r store.route_sets }

abbrev pub save_check_profile : CheckProfile → Store → Store
save_check_profile p store = record store {
  check_profiles = save_entity p.id p store.check_profiles;
}

-- A run that does not decode has no column here that tells its profile: it stays, and nothing reads it.
unfoldable pub delete_runs :
    String → List (String × Stored CheckProfileRun) → List (String × Stored CheckProfileRun)
delete_runs profile_id [] = []
delete_runs profile_id ((key, corrupt) ∷ rows) = (key, corrupt) ∷ delete_runs profile_id rows
delete_runs profile_id ((key, sealed run) ∷ rows) =
    let rest = delete_runs profile_id rows in
    if run.profile_id =ₛ profile_id then rest else (key, sealed run) ∷ rest

unfoldable pub delete_check_profile : String → Store → Store
unfolding delete_runs delete_entity
delete_check_profile id store = record store {
  check_profiles = delete_entity id store.check_profiles;
  database = record store.database { runs = delete_runs id store.database.runs };
}
