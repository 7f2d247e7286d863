-- ===== src/Control/Integrity.antt =====
-- The entities refer to entities that are there, and names are unique where the handlers check it.
pub mod Tables
pub mod Writes
pub mod Properties
pub mod RouteSets
pub mod RouteSetDeletion
pub mod Profiles
pub mod Reconciled
pub mod ProfileRequests
pub mod Dispatch
pub mod Requests
use webperf_selfhosted.Base.{
  String, ◌≡◌, ◌≢◌, Bool, true, false, ◌&&◌, ◌||◌, Option, none, some, List, ◌=ₛ◌, Unique, map_keys,
}
use webperf_selfhosted.Queue.Types.{Stored}
use webperf_selfhosted.Control.Types.{Property, RouteSet, CheckProfile, Store}
use webperf_selfhosted.Control.Store.{get_entity}
use webperf_selfhosted.Control.Inputs.{Platform, same_name}
use webperf_selfhosted.Control.Integrity.Tables.{Keyed, Apart}

abbrev pub is_there {ℓ} : {A : Type ℓ} → Option A → Bool
is_there none = false
is_there (some a) = true

abbrev pub property_id_of : Option RouteSet → Option String
property_id_of none = none
property_id_of (some route_set) = some route_set.property_id

abbrev pub property_clash : Platform → Property → Property → Bool
property_clash platform p q = same_name platform p.name q.name || p.base_url =ₛ q.base_url

abbrev pub route_set_clash : Platform → RouteSet → RouteSet → Bool
route_set_clash platform r s = r.property_id =ₛ s.property_id && same_name platform r.name s.name

abbrev pub profile_clash : Platform → CheckProfile → CheckProfile → Bool
profile_clash platform p q = p.property_id =ₛ q.property_id && same_name platform p.name q.name

pub record IsConsistent (platform : Platform) (store : Store) : Type 0 where
  pub property_keys : Keyed (λ (p : Property). p.id) store.properties
  pub route_set_keys : Keyed (λ (r : RouteSet). r.id) store.route_sets
  pub profile_keys : Keyed (λ (p : CheckProfile). p.id) store.check_profiles
  pub profile_once : Unique (map_keys store.check_profiles)
  pub route_set_property :
      (id : String) (r : RouteSet)
      → get_entity id store.route_sets ≡ some r
      → is_there (get_entity r.property_id store.properties) ≡ true
  pub profile_route_set :
      (id : String) (p : CheckProfile)
      → get_entity id store.check_profiles ≡ some p
      → property_id_of (get_entity p.route_set_id store.route_sets) ≡ some p.property_id
  pub property_names : Apart (property_clash platform) store.properties
  pub route_set_names : Apart (route_set_clash platform) store.route_sets
  pub profile_names : Apart (profile_clash platform) store.check_profiles
