-- ===== src/Control/Integrity/Dispatch.antt =====
-- Runs, by hand and on schedule, keep the entities consistent.
use webperf_selfhosted.Base.{
  ℕ, zero, ◌+◌, String, ◌≡◌, refl, Option, none, some, List, [], ◌∷◌, length, All, Bool-cases, inl,
  inr,
}
use webperf_selfhosted.Report.Types.{schedule, manual}
use webperf_selfhosted.Control.Types.{CheckProfile, Store, Attempt, done, thrown}
use webperf_selfhosted.Control.Store.{get_entity, list_check_profiles, decoded}
use webperf_selfhosted.Control.Inputs.{Platform}
use webperf_selfhosted.Control.ProfileInputs.{needs_review}
use webperf_selfhosted.Control.Handlers.{if_there}
use webperf_selfhosted.Control.Profiles.{reconcile_with, reconcile_check_profile_runtime_location}
use webperf_selfhosted.Control.Jobs.{
  Deployment, CreatedJob, network_probe_max_jobs_per_execution, create_jobs_for_profile,
}
use webperf_selfhosted.Control.Runs.{
  queue_run, run_created, run_profile, handle_run_check_profile, is_due, collect_due, with_schedule,
  trigger_created, trigger_profile, trigger_profiles, handle_dispatch_scheduled_profiles,
}
use webperf_selfhosted.Control.Integrity.{IsConsistent}
use webperf_selfhosted.Control.Integrity.Tables.{decoded-AtItsKey, All-latest_first, All-map}
use webperf_selfhosted.Control.Integrity.Profiles.{
  IsCurrent, IsCurrent-save_check_profile, save_current-IsConsistent, IsConsistent-database,
}
use webperf_selfhosted.Control.Integrity.Reconciled.{
  reconcile-IsCurrent, reconciled-IsCurrent, reconcile-IsConsistent, stored-IsCurrent,
}

-- Every listed profile is what is stored.
pub listed-IsCurrent :
    (platform : Platform) (store : Store)
    → IsConsistent platform store
    → All (IsCurrent store) (list_check_profiles store)
unfolding list_check_profiles
listed-IsCurrent platform store c =
    All-latest_first (IsCurrent store) (λ (p : CheckProfile). p.updated_at)
      (decoded store.check_profiles)
      (All-map (λ (p : CheckProfile). get_entity p.id store.check_profiles ≡ some p)
        (IsCurrent store) (λ p h. (p, h, (refl, refl, refl, refl))) (decoded store.check_profiles)
        (decoded-AtItsKey (λ (p : CheckProfile). p.id) store.check_profiles c.profile_once
          c.profile_keys))

module _ (platform : Platform) (deployment : Deployment) where
  run_created-IsConsistent :
      (p : CheckProfile) (now : ℕ) (a : Attempt (List CreatedJob)) (store : Store)
      → IsConsistent platform store
      → IsConsistent platform (run_created platform deployment p now a store).1
  run_created-IsConsistent p now (thrown e) store c = c
  run_created-IsConsistent p now (done jobs) store c =
      let queued = queue_run platform deployment zero p manual jobs now store in
      let c' = IsConsistent-database platform store c queued.1.database in
      elim (Bool-cases queued.0) [ inl t ↦ rw t c' | inr t ↦ rw t c' ]

  run_found :
      (now : ℕ) (id : String) (store : Store) (found : Option CheckProfile)
      → IsConsistent platform store
      → get_entity id store.check_profiles ≡ found
      → IsConsistent platform (if_there found (run_profile platform deployment now) store).1
  unfolding reconcile_check_profile_runtime_location
  run_found now id store none c h = c
  run_found now id store (some p) c h =
      let current = stored-IsCurrent platform store id p c h in
      let region = deployment.region_id in
      let reconciled = reconcile_with region p now p.location_migration store in
      let c' = reconcile-IsConsistent platform region p now p.location_migration store c current in
      let attempt =
        create_jobs_for_profile platform deployment zero reconciled.0.0 now reconciled.1 in
      elim (Bool-cases (needs_review reconciled.0.0.location_migration)) [
        | inl t ↦ rw t c'
        | inr t ↦ rw t (run_created-IsConsistent reconciled.0.0 now attempt reconciled.1 c')
      ]

  pub handle_run_check_profile-IsConsistent :
      (id : String) (now : ℕ) (store : Store)
      → IsConsistent platform store
      → IsConsistent platform (handle_run_check_profile platform deployment id now store).1
  unfolding handle_run_check_profile
  handle_run_check_profile-IsConsistent id now store c =
      run_found now id store (get_entity id store.check_profiles) c refl

  -- The stores that a dispatch goes through have the same profiles, but for schedules and reviews.
  abbrev Follows : Store → Store → Type 0
  Follows store later =
      IsConsistent platform later × ((p : CheckProfile) → IsCurrent store p → IsCurrent later p)

  abbrev AllCurrent : Store → List CheckProfile → Type 0
  AllCurrent store profiles = All (IsCurrent store) profiles

  collect_due-Follows :
      (dispatch_at now : ℕ) (profiles : List CheckProfile) (store : Store)
      → IsConsistent platform store
      → AllCurrent store profiles
      → Follows store (collect_due platform deployment dispatch_at now profiles store).1
        × AllCurrent
            (collect_due platform deployment dispatch_at now profiles store).1
            (collect_due platform deployment dispatch_at now profiles store).0
  unfolding collect_due reconcile_check_profile_runtime_location
  collect_due-Follows dispatch_at now [] store c h = ((c, λ p k. k), tt)
  collect_due-Follows dispatch_at now (p ∷ profiles) store c h =
      let region = deployment.region_id in
      let reconciled = reconcile_with region p now p.location_migration store in
      let c' = reconcile-IsConsistent platform region p now p.location_migration store c h.0 in
      let kept =
        λ (q : CheckProfile). reconcile-IsCurrent region p now p.location_migration store q h.0 in
      let others = All-map (IsCurrent store) (IsCurrent reconciled.1) kept profiles h.1 in
      let rest = collect_due-Follows dispatch_at now profiles reconciled.1 c' others in
      let own =
        rest.0.1 reconciled.0.0
          (reconciled-IsCurrent region p now p.location_migration store h.0) in
      let later = (collect_due platform deployment dispatch_at now profiles reconciled.1).1 in
      let all_kept : (q : CheckProfile) → IsCurrent store q → IsCurrent later q =
        λ q k. rest.0.1 q (kept q k) in
      elim (Bool-cases (is_due dispatch_at reconciled.0.0)) [
        | inl t ↦ rw t ((rest.0.0, all_kept), (own, rest.1))
        | inr t ↦ rw t ((rest.0.0, all_kept), rest.1)
      ]

  trigger_created-Follows :
      (n dispatch_at now : ℕ) (p : CheckProfile) (a : Attempt (List CreatedJob)) (store : Store)
      → IsConsistent platform store
      → IsCurrent store p
      → Follows store (trigger_created platform deployment n dispatch_at now p a store).1
  trigger_created-Follows n dispatch_at now p (thrown e) store c h = (c, λ q k. k)
  trigger_created-Follows n dispatch_at now p (done jobs) store c h =
      let queued = queue_run platform deployment n p schedule jobs now store in
      let c' = IsConsistent-database platform store c queued.1.database in
      let updated = with_schedule p dispatch_at (length jobs) in
      elim (Bool-cases queued.0) [
        | inl t ↦ rw t (
            (
              save_current-IsConsistent platform queued.1 c' updated h,
              λ q k. IsCurrent-save_check_profile queued.1 updated q h k,
            ))
        | inr t ↦ rw t (c', λ q k. k)
      ]

  trigger_profiles-Follows :
      (n dispatch_at now : ℕ) (profiles : List CheckProfile) (store : Store)
      → IsConsistent platform store
      → AllCurrent store profiles
      → Follows store (trigger_profiles platform deployment n dispatch_at now profiles store).1
  unfolding trigger_profiles trigger_profile
  trigger_profiles-Follows n dispatch_at now [] store c h = (c, λ q k. k)
  trigger_profiles-Follows n dispatch_at now (p ∷ profiles) store c h =
      let attempt = create_jobs_for_profile platform deployment n p now store in
      let first = trigger_created-Follows n dispatch_at now p attempt store c h.0 in
      let next = (trigger_created platform deployment n dispatch_at now p attempt store).1 in
      let rest =
        trigger_profiles-Follows (n + network_probe_max_jobs_per_execution) dispatch_at now profiles
          next first.0 (All-map (IsCurrent store) (IsCurrent next) first.1 profiles h.1) in
      (rest.0, λ q k. rest.1 q (first.1 q k))

  pub handle_dispatch_scheduled_profiles-IsConsistent :
      (dispatch_at now : ℕ) (store : Store)
      → IsConsistent platform store
      → IsConsistent platform
          (handle_dispatch_scheduled_profiles platform deployment dispatch_at now store).1
  unfolding handle_dispatch_scheduled_profiles
  handle_dispatch_scheduled_profiles-IsConsistent dispatch_at now store c =
      let due = collect_due platform deployment dispatch_at now (list_check_profiles store) store in
      let collected =
        collect_due-Follows dispatch_at now (list_check_profiles store) store c
          (listed-IsCurrent platform store c) in
      (trigger_profiles-Follows zero dispatch_at now due.0 due.1 collected.0.0 collected.1).0
