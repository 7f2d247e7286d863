-- ===== src/Control/Integrity/Properties.antt =====
-- The requests on properties keep the entities consistent.
use webperf_selfhosted.Base.{
  ℕ, zero, String, ◌≡◌, refl, true, false, ◌||◌, Option, none, some, ◌=ₛ◌, eq_iff, arith,
  Bool-cases, inl, inr, filter, subst,
}
use webperf_selfhosted.Control.Types.{
  Property, RouteSet, CheckProfile, PropertyInput, Store, Attempt, done, thrown,
}
use webperf_selfhosted.Control.Store.{
  get_entity, delete_entity, list_properties, list_route_sets, list_check_profiles, save_property,
}
use webperf_selfhosted.Control.Store.Laws.{get_entity-save_entity, get_entity-delete_entity}
use webperf_selfhosted.Control.Inputs.{
  Platform, require_trimmed_text, measured_url, ensure_unique_property, same_name,
}
use webperf_selfhosted.Control.Handlers.{
  id_of, if_there, is_none, build_property, property_saved, handle_upsert_property,
  handle_create_property, handle_update_property, handle_delete_property,
  delete_property_unless_used,
}
use webperf_selfhosted.Control.Integrity.{IsConsistent, property_clash}
use webperf_selfhosted.Control.Integrity.Tables.{
  Keyed-save_entity, Keyed-delete_entity, Apart-save_entity, Apart-delete_entity,
}
use webperf_selfhosted.Control.Integrity.Writes.{
  done_bind, done_same, none_clashes, clash_in_place, none_found, same_name_sym,
}

clash_sym :
    (platform : Platform) (p q : Property)
    → property_clash platform p q ≡ property_clash platform q p
clash_sym platform p q = ground (
  arith,
  same_name_sym platform p.name q.name,
  eq_iff p.base_url q.base_url,
  eq_iff q.base_url p.base_url,
)

module _ (platform : Platform) (store : Store) (c : IsConsistent platform store) where
  save_property-IsConsistent :
      (v : Property)
      → ((j : String) (e : Property)
          → get_entity j store.properties ≡ some e
          → property_clash platform e v ≡ true
          → j ≡ v.id)
      → IsConsistent platform (save_property v store)
  save_property-IsConsistent v new = record {
    property_keys = Keyed-save_entity (λ (p : Property). p.id) v store.properties c.property_keys;
    route_set_keys = c.route_set_keys;
    profile_keys = c.profile_keys;
    profile_once = c.profile_once;
    route_set_property = λ id r g. ground (
      arith,
      get_entity-save_entity v.id r.property_id v store.properties,
      c.route_set_property id r g,
    );
    profile_route_set = c.profile_route_set;
    property_names =
        Apart-save_entity (property_clash platform) v.id v store.properties c.property_names new
          (clash_sym platform);
    route_set_names = c.route_set_names;
    profile_names = c.profile_names;
  }

  abbrev IsInPlace : Property → Type 0
  IsInPlace v =
      (j : String) (e : Property)
      → get_entity j store.properties ≡ some e
      → property_clash platform e v ≡ true
      → j ≡ v.id

  -- What is built may be written.
  built-IsInPlace :
      (existing : Option Property) (input : PropertyInput) (now : ℕ) (v : Property)
      → build_property platform existing input now store ≡ done v
      → IsInPlace v
  unfolding ensure_unique_property list_properties
  built-IsInPlace existing input now v =
      done_bind (require_trimmed_text platform input.name) _ v λ name named.
        done_bind (measured_url platform input.base_url) _ v λ base_url measured.
          done_bind
            (ensure_unique_property platform (id_of (λ p. p.id) existing) name base_url
              (list_properties store))
            _ v
            λ u checked written. subst IsInPlace (done_same _ v written) (
              clash_in_place platform (λ p. p.id) store.properties
                (λ e. same_name platform e.name name || e.base_url =ₛ base_url) (λ p. p.updated_at)
                existing (platform.fresh "property_" zero) c.property_keys
                (none_clashes platform _ (list_properties store) u checked))

  saved-IsConsistent :
      (existing : Option Property) (input : PropertyInput) (now : ℕ) (a : Attempt Property)
      → build_property platform existing input now store ≡ a
      → IsConsistent platform (property_saved existing a store).1
  saved-IsConsistent existing input now (thrown e) h = c
  saved-IsConsistent existing input now (done v) h =
      save_property-IsConsistent v (built-IsInPlace existing input now v h)

  handle_upsert_property-IsConsistent :
      (body : Option PropertyInput) (existing : Option Property) (now : ℕ)
      → IsConsistent platform (handle_upsert_property platform body existing now store).1
  unfolding handle_upsert_property
  handle_upsert_property-IsConsistent none existing now = c
  handle_upsert_property-IsConsistent (some input) existing now =
      saved-IsConsistent existing input now (build_property platform existing input now store) refl

  pub handle_create_property-IsConsistent :
      (body : Option PropertyInput) (now : ℕ)
      → IsConsistent platform (handle_create_property platform body now store).1
  unfolding handle_create_property
  handle_create_property-IsConsistent body now = handle_upsert_property-IsConsistent body none now

  updated :
      (body : Option PropertyInput) (now : ℕ) (found : Option Property)
      → IsConsistent platform
          (if_there found (λ p. handle_upsert_property platform body (some p) now) store).1
  updated body now none = c
  updated body now (some p) = handle_upsert_property-IsConsistent body (some p) now

  pub handle_update_property-IsConsistent :
      (id : String) (body : Option PropertyInput) (now : ℕ)
      → IsConsistent platform (handle_update_property platform id body now store).1
  unfolding handle_update_property
  handle_update_property-IsConsistent id body now =
      updated body now (get_entity id store.properties)

  -- A property that no route set is of may be deleted.
  delete-IsConsistent :
      (id : String)
      → ((j : String) (r : RouteSet)
          → get_entity j store.route_sets ≡ some r
          → (r.property_id =ₛ id) ≡ false)
      → IsConsistent platform (record store { properties = delete_entity id store.properties })
  delete-IsConsistent id unused = record {
    property_keys =
        Keyed-delete_entity (λ (p : Property). p.id) id store.properties c.property_keys;
    route_set_keys = c.route_set_keys;
    profile_keys = c.profile_keys;
    profile_once = c.profile_once;
    route_set_property = λ j r g. ground (
      arith,
      get_entity-delete_entity id r.property_id store.properties,
      c.route_set_property j r g,
      unused j r g,
    );
    profile_route_set = c.profile_route_set;
    property_names =
        Apart-delete_entity (property_clash platform) id store.properties c.property_names;
    route_set_names = c.route_set_names;
    profile_names = c.profile_names;
  }

  deleted-IsConsistent :
      (p : Property) → IsConsistent platform (delete_property_unless_used p store).1
  unfolding list_route_sets
  deleted-IsConsistent p =
      let route_sets = filter (λ (r : RouteSet). r.property_id =ₛ p.id) (list_route_sets store) in
      let profiles =
        filter (λ (q : CheckProfile). q.property_id =ₛ p.id) (list_check_profiles store) in
      elim (Bool-cases (is_none route_sets)) [
        | inl a ↦ elim (Bool-cases (is_none profiles)) [
          | inl b ↦ rw a (
              rw b (
                delete-IsConsistent p.id (
                  none_found (λ (r : RouteSet). r.property_id =ₛ p.id)
                    (λ (r : RouteSet). r.updated_at) store.route_sets a)))
          | inr b ↦ rw a (rw b c)
        ]
        | inr a ↦ rw a c
      ]

  found_deleted :
      (found : Option Property)
      → IsConsistent platform (if_there found delete_property_unless_used store).1
  found_deleted none = c
  found_deleted (some p) = deleted-IsConsistent p

  pub handle_delete_property-IsConsistent :
      (id : String) → IsConsistent platform (handle_delete_property id store).1
  unfolding handle_delete_property
  handle_delete_property-IsConsistent id = found_deleted (get_entity id store.properties)
