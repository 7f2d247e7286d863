-- ===== src/Control/Runs.antt =====
-- apps/api/src/index.ts: the runs of check profiles, by hand (handleRunCheckProfile) and on schedule
-- (handleDispatchScheduledProfiles). A dispatch takes its ids with a number that no profile before used.
pub mod Dispatched
pub mod Queued
use Prim.Native.String.{◌++◌ as ◌++ₛ◌}
use webperf_selfhosted.Base.{
  ℕ, zero, ◌+◌, String, Bool, false, not, ◌&&◌, Option, none, some, List, [], ◌∷◌, map, length, leb,
  if◌then◌else◌,
}
use webperf_selfhosted.Report.Types.{LatencyJobDetail, RunTrigger, manual, schedule}
use webperf_selfhosted.Control.Types.{
  Schedule, CheckProfile, Store, answered, refused, Attempt, done, thrown,
}
use webperf_selfhosted.Control.Store.{get_entity, list_check_profiles, save_check_profile}
use webperf_selfhosted.Control.Inputs.{Platform, compute_next_run_at}
use webperf_selfhosted.Control.ProfileInputs.{and_then, needs_review}
use webperf_selfhosted.Control.Handlers.{Handler, if_there}
use webperf_selfhosted.Control.Profiles.{reconcile_check_profile_runtime_location}
use webperf_selfhosted.Control.Jobs.{
  Deployment, CreatedJob, jobs_of, network_probe_max_jobs_per_execution,
  create_network_execution_resource, create_check_profile_run_record, create_jobs_for_profile,
}

abbrev pub is_reached : ℕ → Option ℕ → Bool
is_reached dispatch_at none = false
is_reached dispatch_at (some next_run_at) = leb next_run_at dispatch_at

abbrev pub is_due : ℕ → CheckProfile → Bool
is_due dispatch_at profile =
    not (needs_review profile.location_migration)
    && is_reached dispatch_at (and_then profile.schedule (λ s. s.next_run_at))

abbrev pub ran_at : ℕ → ℕ → Schedule → Schedule
ran_at dispatch_at job_count s = record s {
  next_run_at = some (compute_next_run_at dispatch_at s.interval_minutes);
  last_run_at = some dispatch_at;
  last_run_job_count = some job_count;
}

abbrev pub with_schedule : CheckProfile → ℕ → ℕ → CheckProfile
with_schedule profile dispatch_at job_count = record profile {
  schedule = and_then profile.schedule (λ s. some (ran_at dispatch_at job_count s));
  updated_at = dispatch_at;
}

pub record TriggeredProfile : Type 0 where
  pub profile_id : String
  pub job_ids : List String
  pub next_run_at : Option ℕ

abbrev pub triggered : CheckProfile → List CreatedJob → TriggeredProfile
triggered updated created_jobs = record {
  profile_id = updated.id;
  job_ids = map (λ (j : LatencyJobDetail). j.id) (jobs_of created_jobs);
  next_run_at = and_then updated.schedule (λ s. s.next_run_at);
}

abbrev pub add_triggered : Option TriggeredProfile → List TriggeredProfile → List TriggeredProfile
add_triggered none rest = rest
add_triggered (some t) rest = t ∷ rest

module _ (platform : Platform) (deployment : Deployment) where
  -- The jobs of a profile and its run, queued.
  abbrev pub queue_run : ℕ → CheckProfile → RunTrigger → List CreatedJob → ℕ → Store → Bool × Store
  queue_run n profile trigger created_jobs now store =
      let run =
        create_check_profile_run_record (platform.fresh "run_" n) profile trigger created_jobs
          now in
      let created =
        create_network_execution_resource deployment (jobs_of created_jobs) run profile.id now
          store.database in
      (created.0, record store { database = created.1 })

  abbrev pub run_created :
      CheckProfile → ℕ → Attempt (List CreatedJob) → Handler (List LatencyJobDetail)
  run_created profile now (thrown e) store = (refused 404, store)
  run_created profile now (done created_jobs) store =
      let queued = queue_run zero profile manual created_jobs now store in
      if queued.0 then (answered 201 (jobs_of created_jobs), queued.1) else (refused 500, queued.1)

  abbrev pub run_profile : ℕ → CheckProfile → Handler (List LatencyJobDetail)
  run_profile now stored store =
      let reconciled =
        reconcile_check_profile_runtime_location deployment.region_id stored now store in
      let profile = reconciled.0.0 in
      if needs_review profile.location_migration
      then (refused 409, reconciled.1)
      else run_created profile now
          (create_jobs_for_profile platform deployment zero profile now reconciled.1) reconciled.1

  unfoldable pub handle_run_check_profile : String → ℕ → Handler (List LatencyJobDetail)
  handle_run_check_profile id now store =
      if_there (get_entity id store.check_profiles) (run_profile now) store

  -- The loop over the stored profiles, which reconciles each of them first.
  unfoldable pub collect_due : ℕ → ℕ → List CheckProfile → Store → List CheckProfile × Store
  collect_due dispatch_at now [] store = ([], store)
  collect_due dispatch_at now (stored ∷ profiles) store =
      let reconciled =
        reconcile_check_profile_runtime_location deployment.region_id stored now store in
      let rest = collect_due dispatch_at now profiles reconciled.1 in
      if is_due dispatch_at reconciled.0.0 then (reconciled.0.0 ∷ rest.0, rest.1) else rest

  -- One due profile: what is triggered, if anything, and the store after it.
  abbrev pub trigger_created :
      ℕ → ℕ → ℕ → CheckProfile → Attempt (List CreatedJob) → Store → Option TriggeredProfile × Store
  trigger_created n dispatch_at now profile (thrown e) store = (none, store)
  trigger_created n dispatch_at now profile (done created_jobs) store =
      let queued = queue_run n profile schedule created_jobs now store in
      let updated = with_schedule profile dispatch_at (length created_jobs) in
      if queued.0
      then (some (triggered updated created_jobs), save_check_profile updated queued.1)
      else (none, queued.1)

  unfoldable pub trigger_profile :
      ℕ → ℕ → ℕ → CheckProfile → Store → Option TriggeredProfile × Store
  trigger_profile n dispatch_at now profile store =
      trigger_created n dispatch_at now profile
        (create_jobs_for_profile platform deployment n profile now store) store

  unfoldable pub trigger_profiles :
      ℕ → ℕ → ℕ → List CheckProfile → Store → List TriggeredProfile × Store
  trigger_profiles n dispatch_at now [] store = ([], store)
  trigger_profiles n dispatch_at now (profile ∷ profiles) store =
      let first = trigger_profile n dispatch_at now profile store in
      let rest =
        trigger_profiles (n + network_probe_max_jobs_per_execution) dispatch_at now profiles
          first.1 in
      (add_triggered first.0 rest.0, rest.1)

  unfoldable pub handle_dispatch_scheduled_profiles : ℕ → ℕ → Store → List TriggeredProfile × Store
  handle_dispatch_scheduled_profiles dispatch_at now store =
      let due = collect_due dispatch_at now (list_check_profiles store) store in
      trigger_profiles zero dispatch_at now due.0 due.1
