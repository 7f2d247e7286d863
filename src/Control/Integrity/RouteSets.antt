-- ===== src/Control/Integrity/RouteSets.antt =====
-- The requests on route sets keep the entities consistent.
use webperf_selfhosted.Base.{
  ℕ, zero, String, ◌≡◌, refl, sym, ap, ◌∙◌, true, false, ◌&&◌, Option, none, some, [], ◌=ₛ◌, eq_iff,
  arith, Bool-cases, inl, inr, filter, if◌then◌else◌, subst,
}
use webperf_selfhosted.Control.Types.{
  Property, RouteSet, CheckProfile, RouteSetInput, Store, Answer, refused, Attempt, done, thrown,
}
use webperf_selfhosted.Control.Store.{
  get_entity, list_route_sets, list_check_profiles, save_route_set,
}
use webperf_selfhosted.Control.Store.Laws.{get_entity-save_entity}
use webperf_selfhosted.Control.Inputs.{
  Platform, require_trimmed_text, sanitize_route_inputs, ensure_unique_route_set, same_name,
}
use webperf_selfhosted.Control.Handlers.{
  or_of, id_of, is_none, if_there, build_route_set, route_set_saved, moves_used,
  handle_upsert_route_set, handle_create_route_set, handle_update_route_set,
}
use webperf_selfhosted.Control.Integrity.{IsConsistent, route_set_clash, is_there, property_id_of}
use webperf_selfhosted.Control.Integrity.Tables.{Keyed-save_entity, Apart-save_entity}
use webperf_selfhosted.Control.Integrity.Writes.{
  done_bind, done_same, none_clashes, clash_in_place, none_found, same_name_sym,
}

clash_sym :
    (platform : Platform) (r s : RouteSet)
    → route_set_clash platform r s ≡ route_set_clash platform s r
clash_sym platform r s = ground (
  arith,
  same_name_sym platform r.name s.name,
  eq_iff r.property_id s.property_id,
  eq_iff s.property_id r.property_id,
)

module _ (platform : Platform) (store : Store) (c : IsConsistent platform store) where
  abbrev IsInPlace : RouteSet → Type 0
  IsInPlace v =
      (j : String) (e : RouteSet)
      → get_entity j store.route_sets ≡ some e
      → route_set_clash platform e v ≡ true
      → j ≡ v.id

  -- The profiles that used the route set are of its property.
  abbrev IsOwned : RouteSet → Type 0
  IsOwned v =
      (j : String) (p : CheckProfile)
      → get_entity j store.check_profiles ≡ some p
      → p.route_set_id ≡ v.id
      → v.property_id ≡ p.property_id

  save_route_set-IsConsistent :
      (v : RouteSet)
      → IsInPlace v
      → is_there (get_entity v.property_id store.properties) ≡ true
      → IsOwned v
      → IsConsistent platform (save_route_set v store)
  save_route_set-IsConsistent v new there owned = record {
    property_keys = c.property_keys;
    route_set_keys = Keyed-save_entity (λ (r : RouteSet). r.id) v store.route_sets c.route_set_keys;
    profile_keys = c.profile_keys;
    profile_once = c.profile_once;
    route_set_property = λ id r g. ground (
      arith,
      get_entity-save_entity v.id id v store.route_sets,
      c.route_set_property id r,
      there,
      g,
    );
    profile_route_set = λ j p g. ground (
      arith,
      get_entity-save_entity v.id p.route_set_id v store.route_sets,
      c.profile_route_set j p g,
      eq_iff v.id p.route_set_id,
      owned j p g,
    );
    property_names = c.property_names;
    route_set_names =
        Apart-save_entity (route_set_clash platform) v.id v store.route_sets c.route_set_names new
          (clash_sym platform);
    profile_names = c.profile_names;
  }

  abbrev IsBuilt : Option RouteSet → Property → RouteSet → Type 0
  IsBuilt existing property v =
      IsInPlace v
      × (v.property_id ≡ property.id)
      × (v.id ≡ or_of existing (λ r. r.id) (platform.fresh "routeset_" zero))

  built :
      (existing : Option RouteSet) (input : RouteSetInput) (property : Property) (now : ℕ)
      (v : RouteSet)
      → build_route_set platform existing input property now store ≡ done v
      → IsBuilt existing property v
  unfolding ensure_unique_route_set list_route_sets
  built existing input property now v =
      done_bind (require_trimmed_text platform input.name) _ v λ name named.
        done_bind (sanitize_route_inputs platform [] [] input.routes) _ v λ routes clean.
          done_bind
            (ensure_unique_route_set platform (id_of (λ r. r.id) existing) property.id name
              (list_route_sets store))
            _ v
            λ u checked written. subst (IsBuilt existing property) (done_same _ v written) (
              clash_in_place platform (λ r. r.id) store.route_sets
                  (λ e. e.property_id =ₛ property.id && same_name platform e.name name)
                  (λ r. r.updated_at) existing (platform.fresh "routeset_" zero) c.route_set_keys
                  (none_clashes platform _ (list_route_sets store) u checked),
              refl,
              refl,
            )

  -- A new route set is used by no profile.
  new-IsOwned :
      (v : RouteSet) (fresh : String)
      → get_entity fresh store.route_sets ≡ none
      → v.id ≡ fresh
      → IsOwned v
  new-IsOwned v fresh free same j p g used =
      let unread : get_entity p.route_set_id store.route_sets ≡ none =
        ap (λ id. get_entity id store.route_sets) (used ∙ same) ∙ free in
      let owner = c.profile_route_set j p g in absurd (cc (ap property_id_of unread))

  -- A route set that stays in its property, or that nothing uses, may be written.
  kept-IsOwned :
      (v e : RouteSet) (property : Property)
      → get_entity e.id store.route_sets ≡ some e
      → moves_used (some e) property store ≡ false
      → v.property_id ≡ property.id
      → v.id ≡ e.id
      → IsOwned v
  unfolding list_check_profiles
  kept-IsOwned v e property stored unmoved of_property same j p g used =
      let read : get_entity p.route_set_id store.route_sets ≡ some e =
        ap (λ id. get_entity id store.route_sets) (used ∙ same) ∙ stored in
      let owner : some e.property_id ≡ some p.property_id =
        sym (ap property_id_of read) ∙ c.profile_route_set j p g in
      let users =
        is_none
          (filter (λ (q : CheckProfile). q.route_set_id =ₛ e.id) (list_check_profiles store)) in
      elim (Bool-cases (e.property_id =ₛ property.id)) [
        | inl t ↦ of_property ∙ sym ((eq_iff e.property_id property.id).0 t) ∙ cc (owner)
        | inr t ↦
            let unused : users ≡ true = ground (arith, unmoved, t) in
            let other =
              none_found (λ (q : CheckProfile). q.route_set_id =ₛ e.id)
                (λ (q : CheckProfile). q.updated_at) store.check_profiles unused j p g in
            let hit = (eq_iff p.route_set_id e.id).1 (used ∙ same) in absurd (cc (other, hit))
      ]

  saved-IsConsistent :
      (existing : Option RouteSet) (input : RouteSetInput) (property : Property) (now : ℕ)
      (a : Attempt RouteSet)
      → is_there (get_entity property.id store.properties) ≡ true
      → ((v : RouteSet) → IsBuilt existing property v → IsOwned v)
      → build_route_set platform existing input property now store ≡ a
      → IsConsistent platform (route_set_saved existing a store).1
  saved-IsConsistent existing input property now (thrown e) there owned h = c
  saved-IsConsistent existing input property now (done v) there owned h =
      let facts = built existing input property now v h in
      save_route_set-IsConsistent v facts.0
        (ap (λ id. is_there (get_entity id store.properties)) facts.1 ∙ there) (owned v facts)

  abbrev upserted : RouteSetInput → Option RouteSet → ℕ → Property → Store → Answer RouteSet × Store
  upserted input existing now property s =
      if moves_used existing property s
      then (refused 409, s)
      else route_set_saved existing (build_route_set platform existing input property now s) s

  read_there :
      (id : String) (property : Property)
      → get_entity id store.properties ≡ some property
      → is_there (get_entity property.id store.properties) ≡ true
  read_there id property h =
      let key = c.property_keys id property h in
      ap (λ k. is_there (get_entity k store.properties)) key ∙ ap is_there h

  upserted-IsConsistent :
      (input : RouteSetInput) (existing : Option RouteSet) (now : ℕ) (property : Property)
      → is_there (get_entity property.id store.properties) ≡ true
      → (moves_used existing property store ≡ false
          → (v : RouteSet) → IsBuilt existing property v
          → IsOwned v)
      → IsConsistent platform (upserted input existing now property store).1
  upserted-IsConsistent input existing now property there owned =
      elim (Bool-cases (moves_used existing property store)) [
        | inl t ↦ rw t c
        | inr t ↦ rw t (
            saved-IsConsistent existing input property now
              (build_route_set platform existing input property now store) there (owned t) refl)
      ]

  found-IsConsistent :
      (input : RouteSetInput) (existing : Option RouteSet) (now : ℕ) (found : Option Property)
      → get_entity input.property_id store.properties ≡ found
      → ((property : Property)
          → moves_used existing property store ≡ false
          → (v : RouteSet) → IsBuilt existing property v
          → IsOwned v)
      → IsConsistent platform (if_there found (upserted input existing now) store).1
  found-IsConsistent input existing now none h owned = c
  found-IsConsistent input existing now (some property) h owned =
      upserted-IsConsistent input existing now property (read_there input.property_id property h)
        (owned property)

  pub handle_create_route_set-IsConsistent :
      (body : Option RouteSetInput) (now : ℕ)
      → get_entity (platform.fresh "routeset_" zero) store.route_sets ≡ none
      → IsConsistent platform (handle_create_route_set platform body now store).1
  unfolding handle_create_route_set handle_upsert_route_set
  handle_create_route_set-IsConsistent none now free = c
  handle_create_route_set-IsConsistent (some input) now free =
      found-IsConsistent input none now (get_entity input.property_id store.properties) refl
        (λ property t v facts. new-IsOwned v (platform.fresh "routeset_" zero) free facts.2)

  updated-IsConsistent :
      (id : String) (body : Option RouteSetInput) (now : ℕ) (found : Option RouteSet)
      → get_entity id store.route_sets ≡ found
      → IsConsistent platform
          (if_there found (λ r. handle_upsert_route_set platform body (some r) now) store).1
  unfolding handle_upsert_route_set
  updated-IsConsistent id body now none h = c
  updated-IsConsistent id none now (some e) h = c
  updated-IsConsistent id (some input) now (some e) h =
      let stored : get_entity e.id store.route_sets ≡ some e =
        ap (λ k. get_entity k store.route_sets) (c.route_set_keys id e h) ∙ h in
      found-IsConsistent input (some e) now (get_entity input.property_id store.properties) refl
        (λ property t v facts. kept-IsOwned v e property stored t facts.1 facts.2)

  pub handle_update_route_set-IsConsistent :
      (id : String) (body : Option RouteSetInput) (now : ℕ)
      → IsConsistent platform (handle_update_route_set platform id body now store).1
  unfolding handle_update_route_set
  handle_update_route_set-IsConsistent id body now =
      updated-IsConsistent id body now (get_entity id store.route_sets) refl
