-- ===== src/Control/Integrity/ProfileRequests.antt =====
-- The handlers of check profiles keep the entities consistent.
use webperf_selfhosted.Base.{
  ℕ, String, ◌≡◌, refl, Bool, true, false, Option, none, some, Bool-cases, inl, inr, if◌then◌else◌,
}
use webperf_selfhosted.Report.Types.{CheckProfileRun}
use webperf_selfhosted.Control.Types.{
  Property, RouteSet, CheckProfile, CheckProfileInput, Store, answered, refused,
}
use webperf_selfhosted.Control.Store.{get_entity, save_check_profile, delete_check_profile}
use webperf_selfhosted.Control.Inputs.{Platform}
use webperf_selfhosted.Control.ProfileInputs.{run_of}
use webperf_selfhosted.Control.Handlers.{if_there}
use webperf_selfhosted.Control.Profiles.{
  reconcile_with, reconcile_check_profile_runtime_location, build_check_profile,
  check_profile_saved, of_property, write_check_profile, unacknowledged,
  handle_upsert_check_profile, handle_create_check_profile, handle_update_check_profile,
  handle_delete_check_profile, pin, pin_run, clear_baseline, handle_set_check_profile_baseline,
  handle_clear_check_profile_baseline,
}
use webperf_selfhosted.Control.Integrity.{IsConsistent, profile_clash}
use webperf_selfhosted.Control.Integrity.Tables.{
  Keyed-delete_entity, Apart-delete_entity, read_left, Unique-delete_entity,
}
use webperf_selfhosted.Control.Integrity.Profiles.{
  IsCurrent, save_current-IsConsistent, saved-IsConsistent, of_property_owner,
}
use webperf_selfhosted.Control.Integrity.Reconciled.{reconcile-IsConsistent, stored-IsCurrent}

module _ (platform : Platform) where
  route_set_found :
      (existing : Option CheckProfile) (input : CheckProfileInput) (now : ℕ) (property : Property)
      (store : Store) (found : Option RouteSet)
      → IsConsistent platform store
      → of_property property (get_entity input.route_set_id store.route_sets) ≡ found
      → IsConsistent platform
          (if_there found
            (λ route_set store.
              check_profile_saved existing
                (build_check_profile platform existing input property route_set now store)
                store)
            store).1
  route_set_found existing input now property store none c h = c
  route_set_found existing input now property store (some route_set) c h =
      saved-IsConsistent platform store c existing input property route_set now
        (build_check_profile platform existing input property route_set now store)
        (of_property_owner platform store c input.route_set_id property
          (get_entity input.route_set_id store.route_sets) route_set refl h)
        refl

  property_found :
      (existing : Option CheckProfile) (input : CheckProfileInput) (now : ℕ) (store : Store)
      (found : Option Property)
      → IsConsistent platform store
      → IsConsistent platform
          (if_there found
            (λ property store.
              if_there
                (of_property property (get_entity input.route_set_id store.route_sets))
                (λ route_set store.
                  check_profile_saved existing
                    (build_check_profile platform existing input property route_set now store)
                    store)
                store)
            store).1
  property_found existing input now store none c = c
  property_found existing input now store (some property) c =
      route_set_found existing input now property store
        (of_property property (get_entity input.route_set_id store.route_sets)) c refl

  upserted :
      (existing : Option CheckProfile) (input : CheckProfileInput) (now : ℕ) (changed : Bool)
      (store : Store)
      → IsConsistent platform store
      → IsConsistent platform
          (if changed
            then (refused 409, store)
            else if unacknowledged existing input
            then (refused 409, store)
            else write_check_profile platform existing input now store).1
  upserted existing input now true store c = c
  upserted existing input now false store c = elim (Bool-cases (unacknowledged existing input)) [
    | inl t ↦ rw t c
    | inr t ↦
        rw t (
          property_found existing input now store (get_entity input.property_id store.properties) c)
  ]

  pub handle_create_check_profile-IsConsistent :
      (region : String) (body : Option CheckProfileInput) (now : ℕ) (store : Store)
      → IsConsistent platform store
      → IsConsistent platform (handle_create_check_profile platform region body now store).1
  unfolding handle_create_check_profile handle_upsert_check_profile
  handle_create_check_profile-IsConsistent region none now store c = c
  handle_create_check_profile-IsConsistent region (some input) now store c =
      upserted none input now false store c

  update_found :
      (region : String) (id : String) (body : Option CheckProfileInput) (now : ℕ) (store : Store)
      (found : Option CheckProfile)
      → IsConsistent platform store
      → get_entity id store.check_profiles ≡ found
      → IsConsistent platform
          (if_there found
            (λ p. handle_upsert_check_profile platform region body (some p) now)
            store).1
  unfolding handle_upsert_check_profile reconcile_check_profile_runtime_location
  update_found region id body now store none c h = c
  update_found region id none now store (some p) c h = c
  update_found region id (some input) now store (some p) c h =
      let current = stored-IsCurrent platform store id p c h in
      let reconciled = reconcile_with region p now p.location_migration store in
      upserted (some p) input now reconciled.0.1 reconciled.1
        (reconcile-IsConsistent platform region p now p.location_migration store c current)

  pub handle_update_check_profile-IsConsistent :
      (region id : String) (body : Option CheckProfileInput) (now : ℕ) (store : Store)
      → IsConsistent platform store
      → IsConsistent platform (handle_update_check_profile platform region id body now store).1
  unfolding handle_update_check_profile
  handle_update_check_profile-IsConsistent region id body now store c =
      update_found region id body now store (get_entity id store.check_profiles) c refl

  delete_found :
      (store : Store) (found : Option CheckProfile)
      → IsConsistent platform store
      → IsConsistent platform
          (if_there found
            (λ (p : CheckProfile) store. (answered 200 tt, delete_check_profile p.id store))
            store).1
  unfolding delete_check_profile
  delete_found store none c = c
  delete_found store (some p) c = record {
    property_keys = c.property_keys;
    route_set_keys = c.route_set_keys;
    profile_keys =
        Keyed-delete_entity (λ (q : CheckProfile). q.id) p.id store.check_profiles c.profile_keys;
    profile_once = Unique-delete_entity p.id store.check_profiles c.profile_once;
    route_set_property = c.route_set_property;
    profile_route_set =
        λ j q g. c.profile_route_set j q (read_left p.id j q store.check_profiles g);
    property_names = c.property_names;
    route_set_names = c.route_set_names;
    profile_names =
        Apart-delete_entity (profile_clash platform) p.id store.check_profiles c.profile_names;
  }

  pub handle_delete_check_profile-IsConsistent :
      (id : String) (store : Store)
      → IsConsistent platform store
      → IsConsistent platform (handle_delete_check_profile id store).1
  unfolding handle_delete_check_profile
  handle_delete_check_profile-IsConsistent id store c =
      delete_found store (get_entity id store.check_profiles) c

  run_found :
      (now : ℕ) (p : CheckProfile) (store : Store) (found : Option CheckProfileRun)
      → IsConsistent platform store
      → IsCurrent store p
      → IsConsistent platform
          (if_there found
            (λ run store. (answered 200 (pin p run now), save_check_profile (pin p run now) store))
            store).1
  run_found now p store none c h = c
  run_found now p store (some run) c h =
      save_current-IsConsistent platform store c (pin p run now) h

  pin_found :
      (id : String) (body : Option String) (now : ℕ) (store : Store) (found : Option CheckProfile)
      → IsConsistent platform store
      → get_entity id store.check_profiles ≡ found
      → IsConsistent platform (if_there found (pin_run body now) store).1
  pin_found id body now store none c h = c
  pin_found id none now store (some p) c h = c
  pin_found id (some run_id) now store (some p) c h =
      run_found now p store (run_of p (get_entity run_id store.database.runs)) c
        (stored-IsCurrent platform store id p c h)

  pub handle_set_check_profile_baseline-IsConsistent :
      (id : String) (body : Option String) (now : ℕ) (store : Store)
      → IsConsistent platform store
      → IsConsistent platform (handle_set_check_profile_baseline id body now store).1
  unfolding handle_set_check_profile_baseline
  handle_set_check_profile_baseline-IsConsistent id body now store c =
      pin_found id body now store (get_entity id store.check_profiles) c refl

  clear_found :
      (id : String) (now : ℕ) (store : Store) (found : Option CheckProfile)
      → IsConsistent platform store
      → get_entity id store.check_profiles ≡ found
      → IsConsistent platform (if_there found (clear_baseline now) store).1
  clear_found id now store none c h = c
  clear_found id now store (some p) c h =
      save_current-IsConsistent platform store c (record p { baseline = none; updated_at = now })
        (stored-IsCurrent platform store id p c h)

  pub handle_clear_check_profile_baseline-IsConsistent :
      (id : String) (now : ℕ) (store : Store)
      → IsConsistent platform store
      → IsConsistent platform (handle_clear_check_profile_baseline id now store).1
  unfolding handle_clear_check_profile_baseline
  handle_clear_check_profile_baseline-IsConsistent id now store c =
      clear_found id now store (get_entity id store.check_profiles) c refl
