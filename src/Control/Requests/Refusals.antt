-- ===== src/Control/Requests/Refusals.antt =====
-- apps/api/src/index.ts: what the requests on properties, route sets and baselines leave when they are
-- refused.
pub mod Served
use webperf_selfhosted.Base.{
  ℕ, zero, String, ◌≡◌, refl, Bool, true, false, not, ◌&&◌, ◌||◌, Option, none, some, List, ltb,
  leb, if◌then◌else◌, ◌=ₛ◌, arith, Bool-cases, inl, inr, filter,
}
use webperf_selfhosted.Report.Types.{manual}
use webperf_selfhosted.Control.Types.{
  Property, RouteSet, CheckProfile, PropertyInput, RouteSetInput, CheckProfileInput, Store, Answer,
  answered, refused, Attempt, done, thrown,
}
use webperf_selfhosted.Control.Store.{
  get_entity, list_route_sets, list_check_profiles, save_check_profile, delete_check_profile,
}
use webperf_selfhosted.Control.Inputs.{Platform}
use webperf_selfhosted.Control.ProfileInputs.{needs_review, run_of}
use webperf_selfhosted.Control.Handlers.{
  is_none, saved_status, if_there, property_saved, route_set_saved, moves_used,
  delete_property_unless_used, delete_route_set_unless_used, build_property, build_route_set,
  handle_create_property, handle_update_property, handle_upsert_property, handle_delete_property,
  handle_create_route_set, handle_update_route_set, handle_upsert_route_set,
  handle_delete_route_set,
}
use webperf_selfhosted.Control.Profiles.{
  clear_baseline, reconcile_check_profile_runtime_location, check_profile_saved, of_property,
  unacknowledged, reconcile_existing, build_check_profile, write_check_profile, pin, pin_run,
  handle_upsert_check_profile, handle_create_check_profile, handle_update_check_profile,
  handle_delete_check_profile, handle_set_check_profile_baseline,
  handle_clear_check_profile_baseline,
}
use webperf_selfhosted.Control.Jobs.{Deployment, CreatedJob, create_jobs_for_profile}
use webperf_selfhosted.Control.Runs.{queue_run, run_created, run_profile, handle_run_check_profile}
use webperf_selfhosted.Control.Requests.{ControlRequest, status, serve}

-- The stores have the same properties, route sets and profiles.
pub record SameEntities (store later : Store) : Type 0 where
  pub properties : later.properties ≡ store.properties
  pub route_sets : later.route_sets ≡ store.route_sets
  pub check_profiles : later.check_profiles ≡ store.check_profiles

pub same : (store : Store) → SameEntities store store
same store = record { properties = refl; route_sets = refl; check_profiles = refl }

-- A success has a status of success; an error leaves the entities.
abbrev pub KeepsRefused : {A : Type 0} → Store → Answer A × Store → Type 0
KeepsRefused store (answered code a, later) = ltb code 400 ≡ true
KeepsRefused store (refused code, later) = SameEntities store later

pub if_there-KeepsRefused :
    {E A : Type 0} (found : Option E) (f : E → Store → Answer A × Store) (store : Store)
    → ((e : E) → KeepsRefused store (f e store))
    → KeepsRefused store (if_there found f store)
if_there-KeepsRefused none f store h = same store
if_there-KeepsRefused (some e) f store h = h e

saved_status_success : {E : Type 0} (e : Option E) → ltb (saved_status e) 400 ≡ true
saved_status_success none = refl
saved_status_success (some e) = refl

pub property_saved-KeepsRefused :
    (existing : Option Property) (a : Attempt Property) (store : Store)
    → KeepsRefused store (property_saved existing a store)
property_saved-KeepsRefused existing (done p) store = saved_status_success existing
property_saved-KeepsRefused existing (thrown e) store = same store

pub route_set_saved-KeepsRefused :
    (existing : Option RouteSet) (a : Attempt RouteSet) (store : Store)
    → KeepsRefused store (route_set_saved existing a store)
route_set_saved-KeepsRefused existing (done r) store = saved_status_success existing
route_set_saved-KeepsRefused existing (thrown e) store = same store

pub check_profile_saved-KeepsRefused :
    (existing : Option CheckProfile) (a : Attempt CheckProfile) (store : Store)
    → KeepsRefused store (check_profile_saved existing a store)
check_profile_saved-KeepsRefused existing (done p) store = saved_status_success existing
check_profile_saved-KeepsRefused existing (thrown e) store = same store

pub handle_delete_property-KeepsRefused :
    (id : String) (store : Store) → KeepsRefused store (handle_delete_property id store)
unfolding handle_delete_property
handle_delete_property-KeepsRefused id store =
    if_there-KeepsRefused (get_entity id store.properties) delete_property_unless_used store (λ p.
      let sets = filter (λ (r : RouteSet). r.property_id =ₛ p.id) (list_route_sets store) in
      let profiles =
        filter (λ (q : CheckProfile). q.property_id =ₛ p.id) (list_check_profiles store) in
      elim (Bool-cases (not (is_none sets) || not (is_none profiles))) [
        | inl t ↦ rw t (same store)
        | inr t ↦ rw t refl
      ])

pub handle_delete_route_set-KeepsRefused :
    (id : String) (store : Store) → KeepsRefused store (handle_delete_route_set id store)
unfolding handle_delete_route_set
handle_delete_route_set-KeepsRefused id store =
    if_there-KeepsRefused (get_entity id store.route_sets) delete_route_set_unless_used store (λ r.
      let profiles =
        filter (λ (q : CheckProfile). q.route_set_id =ₛ r.id) (list_check_profiles store) in
      elim (Bool-cases (not (is_none profiles))) [ inl t ↦ rw t (same store) | inr t ↦ rw t refl ])

pub handle_delete_check_profile-KeepsRefused :
    (id : String) (store : Store) → KeepsRefused store (handle_delete_check_profile id store)
unfolding handle_delete_check_profile
handle_delete_check_profile-KeepsRefused id store =
    if_there-KeepsRefused (get_entity id store.check_profiles)
      (λ profile store. (answered 200 tt, delete_check_profile profile.id store)) store (λ p. refl)

pub pin_run-KeepsRefused :
    (body : Option String) (now : ℕ) (p : CheckProfile) (store : Store)
    → KeepsRefused store (pin_run body now p store)
pin_run-KeepsRefused none now p store = same store
pin_run-KeepsRefused (some run_id) now p store =
    if_there-KeepsRefused (run_of p (get_entity run_id store.database.runs))
      (λ run store. (answered 200 (pin p run now), save_check_profile (pin p run now) store)) store
      (λ run. refl)

pub handle_set_check_profile_baseline-KeepsRefused :
    (id : String) (body : Option String) (now : ℕ) (store : Store)
    → KeepsRefused store (handle_set_check_profile_baseline id body now store)
unfolding handle_set_check_profile_baseline
handle_set_check_profile_baseline-KeepsRefused id body now store =
    if_there-KeepsRefused (get_entity id store.check_profiles) (pin_run body now) store
      (λ p. pin_run-KeepsRefused body now p store)

pub handle_clear_check_profile_baseline-KeepsRefused :
    (id : String) (now : ℕ) (store : Store)
    → KeepsRefused store (handle_clear_check_profile_baseline id now store)
unfolding handle_clear_check_profile_baseline
handle_clear_check_profile_baseline-KeepsRefused id now store =
    if_there-KeepsRefused (get_entity id store.check_profiles) (clear_baseline now) store
      (λ p. refl)

module _ (platform : Platform) where
  pub upsert_property-KeepsRefused :
      (body : Option PropertyInput) (existing : Option Property) (now : ℕ) (store : Store)
      → KeepsRefused store (handle_upsert_property platform body existing now store)
  unfolding handle_upsert_property
  upsert_property-KeepsRefused none existing now store = same store
  upsert_property-KeepsRefused (some input) existing now store =
      property_saved-KeepsRefused existing (build_property platform existing input now store) store

  pub upsert_route_set-KeepsRefused :
      (body : Option RouteSetInput) (existing : Option RouteSet) (now : ℕ) (store : Store)
      → KeepsRefused store (handle_upsert_route_set platform body existing now store)
  unfolding handle_upsert_route_set
  upsert_route_set-KeepsRefused none existing now store = same store
  upsert_route_set-KeepsRefused (some input) existing now store =
      if_there-KeepsRefused (get_entity input.property_id store.properties)
        (λ property store.
          if moves_used existing property store
          then (refused 409, store)
          else route_set_saved existing (build_route_set platform existing input property now store)
              store)
        store
        (λ property. elim (Bool-cases (moves_used existing property store)) [
          | inl t ↦ rw t (same store)
          | inr t ↦ rw t (
              route_set_saved-KeepsRefused existing
                (build_route_set platform existing input property now store) store)
        ])
