-- ===== src/Control/Runs/Dispatched.antt =====
-- apps/api/src/index.ts, handleDispatchScheduledProfiles: what a dispatch leaves of the profiles that it
-- triggers.
use webperf_selfhosted.Base.{ℕ, String, ◌≡◌, Option, none, some, [], All}
use webperf_selfhosted.Report.Types.{schedule}
use webperf_selfhosted.Control.Types.{Schedule, CheckProfile, Store}
use webperf_selfhosted.Control.Store.{get_entity}
use webperf_selfhosted.Control.Inputs.{Platform, compute_next_run_at}
use webperf_selfhosted.Control.Jobs.{Deployment}
use webperf_selfhosted.Control.Runs.{TriggeredProfile, add_triggered}

-- The schedule says that the dispatch ran it, and when it is to run next.
pub record RanAt (dispatch_at : ℕ) (s : Schedule) : Type 0 where
  pub last : s.last_run_at ≡ some dispatch_at
  pub next : s.next_run_at ≡ some (compute_next_run_at dispatch_at s.interval_minutes)

abbrev pub ScheduleRan : ℕ → Option Schedule → Type 0
ScheduleRan dispatch_at none = ⊥
ScheduleRan dispatch_at (some s) = RanAt dispatch_at s

abbrev pub ProfileRan : ℕ → Option CheckProfile → Type 0
ProfileRan dispatch_at none = ⊥
ProfileRan dispatch_at (some p) = ScheduleRan dispatch_at p.schedule

-- The profile under the id is there, and ran at the dispatch.
abbrev pub Ran : ℕ → Store → String → Type 0
Ran dispatch_at store id = ProfileRan dispatch_at (get_entity id store.check_profiles)

abbrev HasSchedule : Option Schedule → Type 0
HasSchedule none = ⊥
HasSchedule (some s) = Unit {0}

module _ (platform : Platform) (deployment : Deployment) (dispatch_at now : ℕ) where
  -- What had run before still has, and what is triggered has.
  abbrev Triggers : Store → Option TriggeredProfile × Store → Type 0
  Triggers store result =
      ((id : String) → Ran dispatch_at store id → Ran dispatch_at result.1 id)
      × All (λ (t : TriggeredProfile). Ran dispatch_at result.1 t.profile_id)
          (add_triggered result.0 [])
