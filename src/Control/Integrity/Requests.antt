-- ===== src/Control/Integrity/Requests.antt =====
-- Every sequence of requests leaves the entities consistent.
use webperf_selfhosted.Base.{map_keys, ℕ, zero, String, ◌≡◌, none, []}
use webperf_selfhosted.Queue.Types.{Database}
use webperf_selfhosted.Control.Types.{Store, Answer, answered, refused}
use webperf_selfhosted.Control.Store.{get_entity}
use webperf_selfhosted.Control.Inputs.{Platform}
use webperf_selfhosted.Control.Jobs.{Deployment}
use webperf_selfhosted.Control.Requests.{
  ControlRequest, create_property, update_property, delete_property, create_route_set,
  update_route_set, delete_route_set, create_check_profile, update_check_profile,
  delete_check_profile, set_baseline, clear_baseline, run_check_profile, dispatch_scheduled, status,
  serve,
}
use webperf_selfhosted.Control.Integrity.{IsConsistent}
use webperf_selfhosted.Control.Integrity.Properties.{
  handle_create_property-IsConsistent, handle_update_property-IsConsistent,
  handle_delete_property-IsConsistent,
}
use webperf_selfhosted.Control.Integrity.RouteSets.{
  handle_create_route_set-IsConsistent, handle_update_route_set-IsConsistent,
}
use webperf_selfhosted.Control.Integrity.RouteSetDeletion.{handle_delete_route_set-IsConsistent}
use webperf_selfhosted.Control.Integrity.Profiles.{IsConsistent-database}
use webperf_selfhosted.Control.Integrity.ProfileRequests.{
  handle_create_check_profile-IsConsistent, handle_update_check_profile-IsConsistent,
  handle_delete_check_profile-IsConsistent, handle_set_check_profile_baseline-IsConsistent,
  handle_clear_check_profile_baseline-IsConsistent,
}
use webperf_selfhosted.Control.Integrity.Dispatch.{
  handle_run_check_profile-IsConsistent, handle_dispatch_scheduled_profiles-IsConsistent,
}
use webperf_selfhosted.Control.Handlers.{
  handle_create_property, handle_update_property, handle_delete_property, handle_create_route_set,
  handle_update_route_set, handle_delete_route_set,
}
use webperf_selfhosted.Control.Profiles.{
  handle_create_check_profile, handle_update_check_profile, handle_delete_check_profile,
  handle_set_check_profile_baseline, handle_clear_check_profile_baseline,
}
use webperf_selfhosted.Control.Runs.{handle_run_check_profile}

abbrev pub empty_store : Database → Store
empty_store db = record { properties = []; route_sets = []; check_profiles = []; database = db }

abbrev pub with_ids : Platform → (String → ℕ → String) → Platform
with_ids platform fresh = record platform { fresh = fresh }

-- The stores that requests lead to, each with its own ids and clock and under any configuration, while
-- the queue changes its database in any way. A new route set has an id that none has.
pub data Reachable (platform : Platform) : Store → Type 0 where
  start : (db : Database) → Reachable platform (empty_store db)
  queue_changes :
      {s : Store} (db : Database)
      → Reachable platform s
      → Reachable platform (record s { database = db })
  request_served :
      {s : Store} (fresh : String → ℕ → String) (deployment : Deployment) (request : ControlRequest)
      (now : ℕ)
      → Reachable platform s
      → get_entity (fresh "routeset_" zero) s.route_sets ≡ none
      → Reachable platform (serve (with_ids platform fresh) deployment request now s).1

status_store : {A : Type 0} (P : Store → Type 0) (a : Answer A × Store) → P a.1 → P (status a).1
status_store P (answered code a, store) h = h
status_store P (refused code, store) h = h

serve-IsConsistent :
    (platform : Platform) (deployment : Deployment) (request : ControlRequest) (now : ℕ)
    (store : Store)
    → IsConsistent platform store
    → get_entity (platform.fresh "routeset_" zero) store.route_sets ≡ none
    → IsConsistent platform (serve platform deployment request now store).1
unfolding serve
serve-IsConsistent platform deployment (create_property body) now store c free =
    status_store (IsConsistent platform) (handle_create_property platform body now store)
      (handle_create_property-IsConsistent platform store c body now)
serve-IsConsistent platform deployment (update_property id body) now store c free =
    status_store (IsConsistent platform) (handle_update_property platform id body now store)
      (handle_update_property-IsConsistent platform store c id body now)
serve-IsConsistent platform deployment (delete_property id) now store c free =
    status_store (IsConsistent platform) (handle_delete_property id store)
      (handle_delete_property-IsConsistent platform store c id)
serve-IsConsistent platform deployment (create_route_set body) now store c free =
    status_store (IsConsistent platform) (handle_create_route_set platform body now store)
      (handle_create_route_set-IsConsistent platform store c body now free)
serve-IsConsistent platform deployment (update_route_set id body) now store c free =
    status_store (IsConsistent platform) (handle_update_route_set platform id body now store)
      (handle_update_route_set-IsConsistent platform store c id body now)
serve-IsConsistent platform deployment (delete_route_set id) now store c free =
    status_store (IsConsistent platform) (handle_delete_route_set id store)
      (handle_delete_route_set-IsConsistent platform store c id)
serve-IsConsistent platform deployment (create_check_profile body) now store c free =
    status_store (IsConsistent platform)
      (handle_create_check_profile platform deployment.region_id body now store)
      (handle_create_check_profile-IsConsistent platform deployment.region_id body now store c)
serve-IsConsistent platform deployment (update_check_profile id body) now store c free =
    status_store (IsConsistent platform)
      (handle_update_check_profile platform deployment.region_id id body now store)
      (handle_update_check_profile-IsConsistent platform deployment.region_id id body now store c)
serve-IsConsistent platform deployment (delete_check_profile id) now store c free =
    status_store (IsConsistent platform) (handle_delete_check_profile id store)
      (handle_delete_check_profile-IsConsistent platform id store c)
serve-IsConsistent platform deployment (set_baseline id body) now store c free =
    status_store (IsConsistent platform) (handle_set_check_profile_baseline id body now store)
      (handle_set_check_profile_baseline-IsConsistent platform id body now store c)
serve-IsConsistent platform deployment (clear_baseline id) now store c free =
    status_store (IsConsistent platform) (handle_clear_check_profile_baseline id now store)
      (handle_clear_check_profile_baseline-IsConsistent platform id now store c)
serve-IsConsistent platform deployment (run_check_profile id) now store c free =
    status_store (IsConsistent platform) (handle_run_check_profile platform deployment id now store)
      (handle_run_check_profile-IsConsistent platform deployment id now store c)
serve-IsConsistent platform deployment (dispatch_scheduled dispatch_at) now store c free =
    handle_dispatch_scheduled_profiles-IsConsistent platform deployment dispatch_at now store c

-- The ids that a request takes do not matter to what is consistent.
IsConsistent-with_ids :
    (platform : Platform) (fresh : String → ℕ → String) (store : Store)
    → IsConsistent platform store
    → IsConsistent (with_ids platform fresh) store
IsConsistent-with_ids platform fresh store c = record {
  property_keys = c.property_keys;
  route_set_keys = c.route_set_keys;
  profile_keys = c.profile_keys;
  profile_once = c.profile_once;
  route_set_property = c.route_set_property;
  profile_route_set = c.profile_route_set;
  property_names = c.property_names;
  route_set_names = c.route_set_names;
  profile_names = c.profile_names;
}

IsConsistent-without_ids :
    (platform : Platform) (fresh : String → ℕ → String) (store : Store)
    → IsConsistent (with_ids platform fresh) store
    → IsConsistent platform store
IsConsistent-without_ids platform fresh store c = record {
  property_keys = c.property_keys;
  route_set_keys = c.route_set_keys;
  profile_keys = c.profile_keys;
  profile_once = c.profile_once;
  route_set_property = c.route_set_property;
  profile_route_set = c.profile_route_set;
  property_names = c.property_names;
  route_set_names = c.route_set_names;
  profile_names = c.profile_names;
}

empty-IsConsistent : (platform : Platform) (db : Database) → IsConsistent platform (empty_store db)
unfolding get_entity map_keys
empty-IsConsistent platform db = record {
  property_keys = λ id p h. absurd (cc);
  route_set_keys = λ id r h. absurd (cc);
  profile_keys = λ id p h. absurd (cc);
  profile_once = tt;
  route_set_property = λ id r h. absurd (cc);
  profile_route_set = λ id p h. absurd (cc);
  property_names = λ i j p q h k c. absurd (cc);
  route_set_names = λ i j p q h k c. absurd (cc);
  profile_names = λ i j p q h k c. absurd (cc);
}

-- In every store that requests lead to, each handled as a whole and each new route set under a new
-- id, a route set's property and a profile's route set are there, and a profile is of the property of
-- its route set; names of properties, of route sets and of profiles of one property, and base URLs,
-- belong to one entity each; and every entity stands under its id.
pub Reachable-IsConsistent :
    (platform : Platform) {store : Store} → Reachable platform store → IsConsistent platform store
Reachable-IsConsistent platform (start db) = empty-IsConsistent platform db
Reachable-IsConsistent platform (queue_changes {s} db before) =
    IsConsistent-database platform s (Reachable-IsConsistent platform before) db
Reachable-IsConsistent platform (request_served {s} fresh deployment request now before free) =
    IsConsistent-without_ids platform fresh
      (serve (with_ids platform fresh) deployment request now s).1
      (serve-IsConsistent (with_ids platform fresh) deployment request now s
        (IsConsistent-with_ids platform fresh s (Reachable-IsConsistent platform before)) free)
