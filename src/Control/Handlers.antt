-- ===== src/Control/Handlers.antt =====
-- apps/api/src/index.ts: the requests on properties and route sets. `body` is the payload as its schema
-- accepts it, or `none`; `now` is the clock's reading. Each request is handled as a whole: what it
-- reads before it waits for its body is what it finds after.
use webperf_selfhosted.Base.{
  ℕ, zero, String, Bool, true, false, not, ◌&&◌, ◌||◌, Option, none, some, List, [], ◌∷◌, filter,
  if◌then◌else◌, ◌=ₛ◌,
}
use webperf_selfhosted.Control.Types.{
  Property, RouteSet, CheckProfile, PropertyInput, RouteSetInput, Store, Answer, answered, refused,
  Thrown, duplicate, invalid, Attempt, done, thrown,
}
use webperf_selfhosted.Control.Store.{
  get_entity, delete_entity, list_properties, list_route_sets, list_check_profiles, save_property,
  save_route_set,
}
use webperf_selfhosted.Control.Inputs.{
  Platform, ◌>>=◌, require_trimmed_text, measured_url, ensure_unique_property,
  ensure_unique_route_set, sanitize_route_inputs, merge_route_entries,
}

-- A handler's answer and the store after it.
abbrev pub Handler : Type 0 → Type 0
Handler A = Store → Answer A × Store

abbrev pub status_of : Thrown → ℕ
status_of duplicate = 409
status_of invalid = 400

-- `existing?.id ?? id`, `existing?.createdAt ?? now`, and the status.
abbrev pub or_of {ℓ} : {E : Type 0} {A : Type ℓ} → Option E → (E → A) → A → A
or_of none f a = a
or_of (some e) f a = f e

abbrev pub id_of {ℓ} : {E : Type ℓ} → (E → String) → Option E → Option String
id_of f none = none
id_of f (some e) = some (f e)

abbrev pub saved_status {ℓ} : {E : Type ℓ} → Option E → ℕ
saved_status none = 201
saved_status (some e) = 200

abbrev pub is_none {ℓ} : {A : Type ℓ} → List A → Bool
is_none [] = true
is_none (x ∷ xs) = false

abbrev pub property_saved : Option Property → Attempt Property → Handler Property
property_saved existing (thrown e) store = (refused (status_of e), store)
property_saved existing (done property) store =
    (answered (saved_status existing) property, save_property property store)

abbrev pub if_there :
    {E A : Type 0} → Option E → (E → Store → Answer A × Store) → Store → Answer A × Store
if_there none f store = (refused 404, store)
if_there (some e) f store = f e store

abbrev pub delete_property_unless_used : Property → Handler (Unit {0})
delete_property_unless_used property store =
    let route_sets =
      filter (λ (r : RouteSet). r.property_id =ₛ property.id) (list_route_sets store) in
    let profiles =
      filter (λ (p : CheckProfile). p.property_id =ₛ property.id) (list_check_profiles store) in
    if not (is_none route_sets) || not (is_none profiles)
    then (refused 409, store)
    else (answered 200 tt, record store { properties = delete_entity property.id store.properties })

unfoldable pub handle_delete_property : String → Handler (Unit {0})
handle_delete_property id store =
    if_there (get_entity id store.properties) delete_property_unless_used store

abbrev pub route_set_saved : Option RouteSet → Attempt RouteSet → Handler RouteSet
route_set_saved existing (thrown e) store = (refused (status_of e), store)
route_set_saved existing (done route_set) store =
    (answered (saved_status existing) route_set, save_route_set route_set store)

-- `existing && existing.propertyId !== property.id && dependentProfiles.length > 0`
abbrev pub moves_used : Option RouteSet → Property → Store → Bool
moves_used none property store = false
moves_used (some existing) property store =
    not (existing.property_id =ₛ property.id)
    && not (
        is_none (
          filter (λ (p : CheckProfile). p.route_set_id =ₛ existing.id) (list_check_profiles store)))

abbrev pub delete_route_set_unless_used : RouteSet → Handler (Unit {0})
delete_route_set_unless_used route_set store =
    let profiles =
      filter (λ (p : CheckProfile). p.route_set_id =ₛ route_set.id) (list_check_profiles store) in
    if not (is_none profiles) then (refused 409, store) else (
      answered 200 tt,
      record store { route_sets = delete_entity route_set.id store.route_sets },
    )

unfoldable pub handle_delete_route_set : String → Handler (Unit {0})
handle_delete_route_set id store =
    if_there (get_entity id store.route_sets) delete_route_set_unless_used store

module _ (platform : Platform) where
  abbrev pub build_property : Option Property → PropertyInput → ℕ → Store → Attempt Property
  build_property existing input now store = require_trimmed_text platform input.name >>= λ name.
      measured_url platform input.base_url >>= λ base_url.
      ensure_unique_property platform (id_of (λ p. p.id) existing) name base_url
        (list_properties store)
      >>= λ checked. done (record {
        id = or_of existing (λ p. p.id) (platform.fresh "property_" zero);
        name = name;
        base_url = base_url;
        created_at = or_of existing (λ p. p.created_at) now;
        updated_at = now;
      })

  unfoldable pub handle_upsert_property :
      Option PropertyInput → Option Property → ℕ → Handler Property
  handle_upsert_property none existing now store = (refused 400, store)
  handle_upsert_property (some input) existing now store =
      property_saved existing (build_property existing input now store) store

  unfoldable pub handle_update_property : String → Option PropertyInput → ℕ → Handler Property
  handle_update_property id body now store =
      if_there (get_entity id store.properties)
        (λ property. handle_upsert_property body (some property) now) store

  unfoldable pub handle_create_property : Option PropertyInput → ℕ → Handler Property
  handle_create_property body now store = handle_upsert_property body none now store

  abbrev pub build_route_set :
      Option RouteSet → RouteSetInput → Property → ℕ → Store → Attempt RouteSet
  build_route_set existing input property now store =
      require_trimmed_text platform input.name >>= λ name.
      sanitize_route_inputs platform [] [] input.routes >>= λ routes.
      ensure_unique_route_set platform (id_of (λ r. r.id) existing) property.id name
        (list_route_sets store)
      >>= λ checked. done (record {
        id = or_of existing (λ r. r.id) (platform.fresh "routeset_" zero);
        property_id = property.id;
        name = name;
        routes = merge_route_entries platform zero routes (or_of existing (λ r. r.routes) []);
        created_at = or_of existing (λ r. r.created_at) now;
        updated_at = now;
      })

  unfoldable pub handle_upsert_route_set :
      Option RouteSetInput → Option RouteSet → ℕ → Handler RouteSet
  handle_upsert_route_set none existing now store = (refused 400, store)
  handle_upsert_route_set (some input) existing now store =
      if_there (get_entity input.property_id store.properties)
        (λ property store.
          if moves_used existing property store
          then (refused 409, store)
          else route_set_saved existing (build_route_set existing input property now store) store)
        store

  unfoldable pub handle_update_route_set : String → Option RouteSetInput → ℕ → Handler RouteSet
  handle_update_route_set id body now store =
      if_there (get_entity id store.route_sets)
        (λ route_set. handle_upsert_route_set body (some route_set) now) store

  unfoldable pub handle_create_route_set : Option RouteSetInput → ℕ → Handler RouteSet
  handle_create_route_set body now store = handle_upsert_route_set body none now store
