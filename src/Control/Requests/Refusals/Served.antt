-- ===== src/Control/Requests/Refusals/Served.antt =====
-- apps/api/src/index.ts: what a request that is refused leaves of the entities.
use webperf_selfhosted.Base.{ℕ, Option, some}
use webperf_selfhosted.Control.Types.{CheckProfile, Store}
use webperf_selfhosted.Control.Store.{get_entity}
use webperf_selfhosted.Control.Inputs.{Platform}
use webperf_selfhosted.Control.Profiles.{reconcile_existing}
use webperf_selfhosted.Control.Jobs.{Deployment}
use webperf_selfhosted.Control.Requests.{ControlRequest}

module _ (platform : Platform) (deployment : Deployment) where
  -- What is kept of the store by a request that goes on with the profile: the profile put in review
  -- is saved if its migration is for another region.
  abbrev pub reviewed : Option CheckProfile → ℕ → Store → Store
  reviewed found now store = (reconcile_existing deployment.region_id found now store).1

  -- Of a request that names a profile to update or to run, the profile is reviewed first.
  unfoldable pub entities_kept : ControlRequest → ℕ → Store → Store
  entities_kept (ControlRequest.update_check_profile id (some input)) now store =
      reviewed (get_entity id store.check_profiles) now store
  entities_kept (ControlRequest.run_check_profile id) now store =
      reviewed (get_entity id store.check_profiles) now store
  entities_kept _ now store = store
