-- ===== src/Tests/Control.antt =====
-- A session of requests on properties, route sets and check profiles, and the theorems on it.
use Prim.Native.String.{◌++◌ as ◌++ₛ◌}
use webperf_selfhosted.Base.{ℕ, String, ◌≡◌, refl, true, none, some, [], ◌∷◌, map, codes}
use webperf_selfhosted.Queue.Types.{Database}
use webperf_selfhosted.Control.Types.{
  Store, PropertyInput, RouteSetInput, CheckProfileInput, RequestConfig, WebhookTarget, done,
  thrown, invalid,
}
use webperf_selfhosted.Control.Store.{
  get_entity, save_entity, decoded, latest_first, list_properties, list_route_sets,
}
use webperf_selfhosted.Control.Handlers.{
  handle_create_property, handle_upsert_property, handle_create_route_set, handle_upsert_route_set,
}
use webperf_selfhosted.Control.Inputs.{
  Platform, require_trimmed_text, measured_url, ensure_unique_property, ensure_unique_route_set,
  sanitize_route_inputs,
}
use webperf_selfhosted.Control.ProfileInputs.{merge_webhook_targets}
use webperf_selfhosted.Control.ProfileInputs.Webhooks.{
  shown_target, IsTrimmed, merge_webhook_targets_shifted, merge_webhook_targets_without_secret,
}
use webperf_selfhosted.Control.Jobs.{Deployment}
use webperf_selfhosted.Control.Requests.{
  ControlRequest, create_property, create_route_set, create_check_profile, serve,
}
use webperf_selfhosted.Control.Integrity.{IsConsistent}
use webperf_selfhosted.Control.Integrity.Requests.{
  Reachable, empty_store, with_ids, start, request_served, Reachable-IsConsistent,
}
use webperf_selfhosted.Tests.Measure.{decimal}

abbrev ids : String → String → ℕ → String
ids number prefix n = prefix ++ₛ number

-- Texts without white space and capitals; every URL is one of a public address.
abbrev pub platform : Platform
platform = record {
  trim = λ text. text;
  lower_case = λ text. text;
  parse_url = λ value. some (record {
    protocol = "http:";
    username = "";
    password = "";
    port = "";
    hostname = codes "8.8.4.4";
    href = value;
  });
  number = decimal;
  fresh = ids "0";
}

abbrev pub deployment : Deployment
deployment = record { region_id = "home"; max_target_attempts = 3; retention_days = 30 }

abbrev pub db : Database
db = record { execution_jobs = []; jobs = []; runs = []; audits = [] }

abbrev served : String → ControlRequest → ℕ → Store → Store
served number request now store =
    (serve (with_ids platform (ids number)) deployment request now store).1

abbrev site : PropertyInput
site = record { name = "site"; base_url = "http://site/" }

abbrev pub pages : RouteSetInput
pages = record {
  property_id = "property_1";
  name = "pages";
  routes = record { label = "home"; url = "http://site/" } ∷ [];
}

abbrev hourly : CheckProfileInput
hourly = record {
  property_id = "property_1";
  route_set_id = "routeset_2";
  name = "hourly";
  note = none;
  request = none;
  monitor_policy = none;
  alerts = none;
  schedule_interval_minutes = some 60;
  acknowledge_location_migration = none;
}

abbrev with_site : Store
with_site = served "1" (create_property (some site)) 1000 (empty_store db)

abbrev with_pages : Store
with_pages = served "2" (create_route_set (some pages)) 2000 with_site

abbrev with_profile : Store
with_profile = served "3" (create_check_profile (some hourly)) 3000 with_pages

no_route_set : get_entity "routeset_1" (empty_store db).route_sets ≡ none
unfolding get_entity
no_route_set = refl

site_free : get_entity "routeset_2" with_site.route_sets ≡ none
unfolding get_entity serve handle_create_property handle_upsert_property require_trimmed_text
    measured_url ensure_unique_property list_properties latest_first decoded
site_free = refl

pages_free : get_entity "routeset_3" with_pages.route_sets ≡ none
unfolding get_entity serve handle_create_property handle_upsert_property require_trimmed_text
    measured_url ensure_unique_property list_properties latest_first decoded save_entity
    handle_create_route_set handle_upsert_route_set sanitize_route_inputs ensure_unique_route_set
    list_route_sets
pages_free = refl

session : Reachable platform with_profile
session =
    request_served (ids "3") deployment (create_check_profile (some hourly)) 3000
      (request_served (ids "2") deployment (create_route_set (some pages)) 2000
        (request_served (ids "1") deployment (create_property (some site)) 1000 (start db)
          no_route_set)
        site_free)
      pages_free

Reachable-IsConsistent_example : IsConsistent platform with_profile
Reachable-IsConsistent_example = Reachable-IsConsistent platform session

abbrev pager : WebhookTarget
pager = record {
  id = "webhook_1";
  name = "pager";
  url = "http://pager/";
  enabled = true;
  secret = some "one";
}

abbrev chat : WebhookTarget
chat = record {
  id = "webhook_2";
  name = "chat";
  url = "http://chat/";
  enabled = true;
  secret = some "two";
}

abbrev open_target : WebhookTarget
open_target = record chat { secret = none }

chat-IsTrimmed : IsTrimmed platform chat
chat-IsTrimmed = record { name = refl; named = refl; url = refl }

open-IsTrimmed : IsTrimmed platform open_target
open-IsTrimmed = record { name = refl; named = refl; url = refl }

merge_webhook_targets_shifted_example :
    merge_webhook_targets platform 0 (shown_target chat ∷ []) (pager ∷ chat ∷ [])
    ≡ done (record chat { id = "webhook_1"; secret = some "one" } ∷ [])
merge_webhook_targets_shifted_example =
    merge_webhook_targets_shifted platform pager chat chat-IsTrimmed refl refl

merge_webhook_targets_without_secret_example :
    merge_webhook_targets platform 0
      (map shown_target (open_target ∷ pager ∷ []))
      (open_target ∷ pager ∷ [])
    ≡ thrown invalid
merge_webhook_targets_without_secret_example =
    merge_webhook_targets_without_secret platform open_target (pager ∷ []) open-IsTrimmed refl

abbrev signed_request : RequestConfig
signed_request = record {
  method = "GET";
  headers =
      record { name = "x-api-key"; value = "k" } ∷ record { name = "accept"; value = "*" } ∷ [];
  body = none;
}
