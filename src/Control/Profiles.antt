-- ===== src/Control/Profiles.antt =====
-- apps/api/src/index.ts: the requests on check profiles. `region` is the deployment's runtime location.
use webperf_selfhosted.Base.{
  ℕ, zero, String, Bool, true, false, not, ◌&&◌, Option, none, some, if◌then◌else◌, ◌=ₛ◌,
}
use webperf_selfhosted.Report.Types.{CheckProfileRun}
use webperf_selfhosted.Control.Types.{
  Property, RouteSet, MigrationStatus, LocationMigration, CheckProfile, CheckProfileInput, Store,
  answered, refused, Attempt, done, thrown,
}
use webperf_selfhosted.Control.Store.{
  get_entity, list_check_profiles, save_check_profile, delete_check_profile,
}
use webperf_selfhosted.Control.Inputs.{
  Platform, ◌>>=◌, require_trimmed_text, normalize_optional_text, normalize_custom_request_config,
  ensure_unique_check_profile,
}
use webperf_selfhosted.Control.ProfileInputs.{
  and_then, needs_review, is_requires_review, normalize_monitor_policy, normalize_alert_config,
  build_profile_schedule, resolve_updated_profile_baseline, run_of,
}
use webperf_selfhosted.Control.Handlers.{Handler, status_of, or_of, id_of, saved_status, if_there}

-- The profile with its migration to be reviewed for the region, and without a schedule.
abbrev pub put_in_review : String → CheckProfile → LocationMigration → ℕ → CheckProfile
put_in_review region profile migration now = record profile {
  schedule = none;
  location_migration = some (record migration {
    runtime_region_id = region;
    status = MigrationStatus.requires_review;
    acknowledged_at = none;
  });
  updated_at = now;
}

abbrev pub reconcile_with :
    String → CheckProfile → ℕ → Option LocationMigration → Store → (CheckProfile × Bool) × Store
reconcile_with region profile now none store = ((profile, false), store)
reconcile_with region profile now (some migration) store =
    if migration.runtime_region_id =ₛ region then ((profile, false), store) else (
      (put_in_review region profile migration now, true),
      save_check_profile (put_in_review region profile migration now) store,
    )

unfoldable pub reconcile_check_profile_runtime_location :
    String → CheckProfile → ℕ → Store → (CheckProfile × Bool) × Store
reconcile_check_profile_runtime_location region profile now store =
    reconcile_with region profile now profile.location_migration store

abbrev pub accept_migration : ℕ → LocationMigration → LocationMigration
accept_migration now migration =
    if is_requires_review migration.status
    then record migration { status = MigrationStatus.accepted; acknowledged_at = some now }
    else migration

-- `existing?.locationMigration`, accepted if it was to be reviewed.
abbrev pub migration_after : Option LocationMigration → ℕ → Option LocationMigration
migration_after none now = none
migration_after (some migration) now = some (accept_migration now migration)

abbrev pub is_true : Option Bool → Bool
is_true none = false
is_true (some b) = b

abbrev pub check_profile_saved : Option CheckProfile → Attempt CheckProfile → Handler CheckProfile
check_profile_saved existing (thrown e) store = (refused (status_of e), store)
check_profile_saved existing (done profile) store =
    (answered (saved_status existing) profile, save_check_profile profile store)

-- `!routeSet || routeSet.propertyId !== property.id`
abbrev pub of_property : Property → Option RouteSet → Option RouteSet
of_property property none = none
of_property property (some route_set) =
    if route_set.property_id =ₛ property.id then some route_set else none

abbrev pub unacknowledged : Option CheckProfile → CheckProfileInput → Bool
unacknowledged existing input =
    needs_review (and_then existing (λ p. p.location_migration))
    && not (is_true input.acknowledge_location_migration)

abbrev pub reconcile_existing : String → Option CheckProfile → ℕ → Store → Bool × Store
reconcile_existing region none now store = (false, store)
reconcile_existing region (some profile) now store =
    let reconciled = reconcile_check_profile_runtime_location region profile now store in
    (reconciled.0.1, reconciled.1)

module _ (platform : Platform) where
  abbrev pub build_check_profile :
      Option CheckProfile
      → CheckProfileInput
      → Property
      → RouteSet
      → ℕ
      → Store
      → Attempt CheckProfile
  build_check_profile existing input property route_set now store =
      require_trimmed_text platform input.name >>= λ name.
      normalize_custom_request_config platform input.request (and_then existing (λ p. p.request))
      >>= λ request.
          normalize_alert_config platform input.alerts (and_then existing (λ p. p.alerts))
          >>= λ alerts.
              ensure_unique_check_profile platform (id_of (λ p. p.id) existing) property.id name
                (list_check_profiles store)
              >>= λ checked. done (record {
                id = or_of existing (λ p. p.id) (platform.fresh "profile_" zero);
                property_id = property.id;
                route_set_id = route_set.id;
                name = name;
                note = normalize_optional_text platform input.note;
                request = some request;
                monitor_policy = some (normalize_monitor_policy input.monitor_policy);
                alerts = some alerts;
                browser_audit_policy = and_then existing (λ p. p.browser_audit_policy);
                schedule =
                    build_profile_schedule (and_then existing (λ p. p.schedule))
                      input.schedule_interval_minutes now;
                baseline = resolve_updated_profile_baseline existing store route_set.id;
                location_migration =
                    migration_after (and_then existing (λ p. p.location_migration)) now;
                created_at = or_of existing (λ p. p.created_at) now;
                updated_at = now;
              })

  -- The rest of the handler once the profile may be written.
  abbrev pub write_check_profile :
      Option CheckProfile → CheckProfileInput → ℕ → Handler CheckProfile
  write_check_profile existing input now store =
      if_there (get_entity input.property_id store.properties)
        (λ property store.
          if_there (of_property property (get_entity input.route_set_id store.route_sets))
            (λ route_set store.
              check_profile_saved existing
                (build_check_profile existing input property route_set now store) store)
            store)
        store

  unfoldable pub handle_upsert_check_profile :
      String → Option CheckProfileInput → Option CheckProfile → ℕ → Handler CheckProfile
  handle_upsert_check_profile region none existing now store = (refused 400, store)
  handle_upsert_check_profile region (some input) existing now store =
      let reconciled = reconcile_existing region existing now store in
      if reconciled.0
      then (refused 409, reconciled.1)
      else if unacknowledged existing input
      then (refused 409, reconciled.1)
      else write_check_profile existing input now reconciled.1

  unfoldable pub handle_update_check_profile :
      String → String → Option CheckProfileInput → ℕ → Handler CheckProfile
  handle_update_check_profile region id body now store =
      if_there (get_entity id store.check_profiles)
        (λ profile. handle_upsert_check_profile region body (some profile) now) store

  unfoldable pub handle_create_check_profile :
      String → Option CheckProfileInput → ℕ → Handler CheckProfile
  handle_create_check_profile region body now store =
      handle_upsert_check_profile region body none now store

unfoldable pub handle_delete_check_profile : String → Handler (Unit {0})
handle_delete_check_profile id store =
    if_there (get_entity id store.check_profiles)
      (λ profile store. (answered 200 tt, delete_check_profile profile.id store)) store

abbrev pub pin : CheckProfile → CheckProfileRun → ℕ → CheckProfile
pin profile run now = record profile {
  baseline = some (record { run_id = run.id; pinned_at = now });
  updated_at = now;
}

-- The body names a run.
abbrev pub pin_run : Option String → ℕ → CheckProfile → Handler CheckProfile
pin_run none now profile store = (refused 400, store)
pin_run (some run_id) now profile store =
    if_there (run_of profile (get_entity run_id store.database.runs))
      (λ run store.
        (answered 200 (pin profile run now), save_check_profile (pin profile run now) store))
      store

unfoldable pub handle_set_check_profile_baseline : String → Option String → ℕ → Handler CheckProfile
handle_set_check_profile_baseline id body now store =
    if_there (get_entity id store.check_profiles) (pin_run body now) store

abbrev pub clear_baseline : ℕ → CheckProfile → Handler CheckProfile
clear_baseline now profile store =
    let next_profile = record profile { baseline = none; updated_at = now } in
    (answered 200 next_profile, save_check_profile next_profile store)

unfoldable pub handle_clear_check_profile_baseline : String → ℕ → Handler CheckProfile
handle_clear_check_profile_baseline id now store =
    if_there (get_entity id store.check_profiles) (clear_baseline now) store
