-- ===== src/Control/Requests.antt =====
-- apps/api/src/index.ts: the requests that write entities, as data, each handled as a whole.
pub mod Refusals
use webperf_selfhosted.Base.{ℕ, zero, String, ◌≡◌, Option, none}
use webperf_selfhosted.Control.Types.{
  PropertyInput, RouteSetInput, CheckProfileInput, Store, Answer, answered, refused,
}
use webperf_selfhosted.Control.Store.{get_entity}
use webperf_selfhosted.Control.Inputs.{Platform}
use webperf_selfhosted.Control.Handlers.{
  handle_create_property, handle_update_property, handle_delete_property, handle_create_route_set,
  handle_update_route_set, handle_delete_route_set,
}
use webperf_selfhosted.Control.Profiles.{
  handle_create_check_profile, handle_update_check_profile, handle_delete_check_profile,
  handle_set_check_profile_baseline, handle_clear_check_profile_baseline,
}
use webperf_selfhosted.Control.Jobs.{Deployment}
use webperf_selfhosted.Control.Runs.{handle_run_check_profile, handle_dispatch_scheduled_profiles}

pub data ControlRequest : Type 0 where
  create_property : Option PropertyInput → ControlRequest
  update_property : String → Option PropertyInput → ControlRequest
  delete_property : String → ControlRequest
  create_route_set : Option RouteSetInput → ControlRequest
  update_route_set : String → Option RouteSetInput → ControlRequest
  delete_route_set : String → ControlRequest
  create_check_profile : Option CheckProfileInput → ControlRequest
  update_check_profile : String → Option CheckProfileInput → ControlRequest
  delete_check_profile : String → ControlRequest
  set_baseline : String → Option String → ControlRequest
  clear_baseline : String → ControlRequest
  run_check_profile : String → ControlRequest
  dispatch_scheduled : ℕ → ControlRequest

abbrev pub status : {A : Type 0} → Answer A × Store → ℕ × Store
status (answered code a, store) = (code, store)
status (refused code, store) = (code, store)

module _ (platform : Platform) (deployment : Deployment) where
  -- The status of the answer, and the store after it.
  unfoldable pub serve : ControlRequest → ℕ → Store → ℕ × Store
  serve (create_property body) now store = status (handle_create_property platform body now store)
  serve (update_property id body) now store =
      status (handle_update_property platform id body now store)
  serve (delete_property id) now store = status (handle_delete_property id store)
  serve (create_route_set body) now store = status (handle_create_route_set platform body now store)
  serve (update_route_set id body) now store =
      status (handle_update_route_set platform id body now store)
  serve (delete_route_set id) now store = status (handle_delete_route_set id store)
  serve (create_check_profile body) now store =
      status (handle_create_check_profile platform deployment.region_id body now store)
  serve (update_check_profile id body) now store =
      status (handle_update_check_profile platform deployment.region_id id body now store)
  serve (delete_check_profile id) now store = status (handle_delete_check_profile id store)
  serve (set_baseline id body) now store =
      status (handle_set_check_profile_baseline id body now store)
  serve (clear_baseline id) now store = status (handle_clear_check_profile_baseline id now store)
  serve (run_check_profile id) now store =
      status (handle_run_check_profile platform deployment id now store)
  serve (dispatch_scheduled dispatch_at) now store =
      (200, (handle_dispatch_scheduled_profiles platform deployment dispatch_at now store).1)
