-- ===== src/Control/Integrity/RouteSetDeletion.antt =====
-- The deletion of a route set that no profile uses keeps the entities consistent.
use webperf_selfhosted.Base.{
  String, ◌≡◌, false, Option, none, some, ◌=ₛ◌, arith, Bool-cases, inl, inr, filter,
}
use webperf_selfhosted.Control.Types.{RouteSet, CheckProfile, Store}
use webperf_selfhosted.Control.Store.{get_entity, delete_entity, list_check_profiles}
use webperf_selfhosted.Control.Store.Laws.{get_entity-delete_entity}
use webperf_selfhosted.Control.Inputs.{Platform}
use webperf_selfhosted.Control.Handlers.{
  is_none, if_there, handle_delete_route_set, delete_route_set_unless_used,
}
use webperf_selfhosted.Control.Integrity.{IsConsistent, route_set_clash}
use webperf_selfhosted.Control.Integrity.Tables.{
  Keyed-delete_entity, Apart-delete_entity, read_left,
}
use webperf_selfhosted.Control.Integrity.Writes.{none_found}

module _ (platform : Platform) (store : Store) (c : IsConsistent platform store) where
  -- A route set that no profile uses may be deleted.
  delete-IsConsistent :
      (id : String)
      → ((j : String) (p : CheckProfile)
          → get_entity j store.check_profiles ≡ some p
          → (p.route_set_id =ₛ id) ≡ false)
      → IsConsistent platform (record store { route_sets = delete_entity id store.route_sets })
  delete-IsConsistent id unused = record {
    property_keys = c.property_keys;
    route_set_keys =
        Keyed-delete_entity (λ (r : RouteSet). r.id) id store.route_sets c.route_set_keys;
    profile_keys = c.profile_keys;
    profile_once = c.profile_once;
    route_set_property = λ j r g. c.route_set_property j r (read_left id j r store.route_sets g);
    profile_route_set = λ j p g. ground (
      arith,
      get_entity-delete_entity id p.route_set_id store.route_sets,
      c.profile_route_set j p g,
      unused j p g,
    );
    property_names = c.property_names;
    route_set_names =
        Apart-delete_entity (route_set_clash platform) id store.route_sets c.route_set_names;
    profile_names = c.profile_names;
  }

  deleted-IsConsistent :
      (r : RouteSet) → IsConsistent platform (delete_route_set_unless_used r store).1
  unfolding list_check_profiles
  deleted-IsConsistent r =
      let profiles =
        filter (λ (q : CheckProfile). q.route_set_id =ₛ r.id) (list_check_profiles store) in
      elim (Bool-cases (is_none profiles)) [
        | inl a ↦ rw a (
            delete-IsConsistent r.id (
              none_found (λ (q : CheckProfile). q.route_set_id =ₛ r.id)
                (λ (q : CheckProfile). q.updated_at) store.check_profiles a))
        | inr a ↦ rw a c
      ]

  found_deleted :
      (found : Option RouteSet)
      → IsConsistent platform (if_there found delete_route_set_unless_used store).1
  found_deleted none = c
  found_deleted (some r) = deleted-IsConsistent r

  pub handle_delete_route_set-IsConsistent :
      (id : String) → IsConsistent platform (handle_delete_route_set id store).1
  unfolding handle_delete_route_set
  handle_delete_route_set-IsConsistent id = found_deleted (get_entity id store.route_sets)
