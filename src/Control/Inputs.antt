-- ===== src/Control/Inputs.antt =====
-- apps/api/src/index.ts: what the handlers do with the payloads of their requests before they write. The
-- platform's part is a parameter: `trim` and `toLowerCase`, `new URL(…)`, `Number(…)`, and the ids, of
-- which `fresh prefix n` is the n-th that a request takes with the prefix.
pub mod Headers
use webperf_selfhosted.Base.{
  ℕ, suc, ◌+◌, ◌*◌, String, Bool, true, not, ◌&&◌, ◌||◌, Option, none, some, List, [], ◌∷◌, any,
  find, if◌then◌else◌, ◌=ₛ◌, codes, includes,
}
use webperf_selfhosted.Domain.Url.{Url, Validated, accepted, refused, validate_measurement_url}
use webperf_selfhosted.Redaction.Names.{is_sensitive_header_name}
use webperf_selfhosted.Control.Types.{
  Property, RouteEntry, RouteSet, RequestHeader, RequestBody, RequestConfig, CheckProfile,
  RouteInput, Attempt, done, thrown, duplicate, invalid,
}

pub record Platform : Type 0 where
  pub trim : String → String
  pub lower_case : String → String
  pub parse_url : String → Option Url
  pub number : List ℕ → Option ℕ
  pub fresh : String → ℕ → String

infixl 5 ◌>>=◌
abbrev pub ◌>>=◌ : {A B : Type 0} → Attempt A → (A → Attempt B) → Attempt B
done a >>= f = f a
thrown e >>= f = thrown e

abbrev pub or_else {ℓ} : {A : Type ℓ} → Option A → A → A
or_else none default = default
or_else (some a) default = a

-- `a ?? b ?? default`
abbrev pub first_of {ℓ} : {A : Type ℓ} → Option A → Option A → A → A
first_of none b default = or_else b default
first_of (some a) b default = a

abbrev pub redacted_value : String
redacted_value = "[REDACTED]"

-- `scheduleIntervalMinutes` from a time.
abbrev pub compute_next_run_at : ℕ → ℕ → ℕ
compute_next_run_at from interval_minutes = from + interval_minutes * 60 * 1000

module _ (platform : Platform) where
  unfoldable pub require_trimmed_text : String → Attempt String
  require_trimmed_text value =
      let trimmed = platform.trim value in if trimmed =ₛ "" then thrown invalid else done trimmed

  abbrev pub some_text : String → Option String
  some_text trimmed = if trimmed =ₛ "" then none else some trimmed

  unfoldable pub normalize_optional_text : Option String → Option String
  normalize_optional_text none = none
  normalize_optional_text (some value) = some_text (platform.trim value)

  abbrev pub href_of : Validated → Attempt String
  href_of (accepted url) = done url.href
  href_of (refused code) = thrown invalid

  -- `validateMeasurementUrl(value.trim()).toString()`
  unfoldable pub measured_url : String → Attempt String
  unfolding validate_measurement_url
  measured_url value =
      href_of (validate_measurement_url platform.number platform.parse_url (platform.trim value))

  abbrev pub same_name : String → String → Bool
  same_name a b = platform.lower_case a =ₛ platform.lower_case b

  -- `entity.id !== id`, where a missing id is null.
  abbrev pub is_other : Option String → String → Bool
  is_other none id = true
  is_other (some own) id = not (id =ₛ own)

  abbrev pub unless_any : {A : Type 0} → (A → Bool) → List A → Attempt (Unit {0})
  unless_any clashes entities = if any clashes entities then thrown duplicate else done tt

  unfoldable pub ensure_unique_property :
      Option String → String → String → List Property → Attempt (Unit {0})
  ensure_unique_property id name base_url properties =
      unless_any
        (λ (p : Property). is_other id p.id && (same_name p.name name || p.base_url =ₛ base_url))
        properties

  unfoldable pub ensure_unique_route_set :
      Option String → String → String → List RouteSet → Attempt (Unit {0})
  ensure_unique_route_set id property_id name route_sets =
      unless_any
        (λ (r : RouteSet).
          is_other id r.id && (r.property_id =ₛ property_id && same_name r.name name))
        route_sets

  unfoldable pub ensure_unique_check_profile :
      Option String → String → String → List CheckProfile → Attempt (Unit {0})
  ensure_unique_check_profile id property_id name profiles =
      unless_any
        (λ (p : CheckProfile).
          is_other id p.id && (p.property_id =ₛ property_id && same_name p.name name))
        profiles

  -- The tests of one route in `sanitizeRouteInputs`, against the labels and URLs before it.
  unfoldable pub sanitize_route : List String → List String → RouteInput → Attempt RouteInput
  unfolding require_trimmed_text measured_url includes
  sanitize_route seen_labels seen_urls route = require_trimmed_text route.label >>= λ label.
      measured_url route.url >>= λ url.
      if includes (platform.lower_case label) seen_labels
      then thrown duplicate
      else if includes url seen_urls
      then thrown duplicate
      else done (record { label = label; url = url })

  unfoldable pub sanitize_route_inputs :
      List String → List String → List RouteInput → Attempt (List RouteInput)
  unfolding sanitize_route
  sanitize_route_inputs seen_labels seen_urls [] = done []
  sanitize_route_inputs seen_labels seen_urls (route ∷ routes) =
      sanitize_route seen_labels seen_urls route >>= λ clean.
      sanitize_route_inputs (platform.lower_case clean.label ∷ seen_labels) (clean.url ∷ seen_urls)
        routes
      >>= λ rest. done (clean ∷ rest)

  abbrev pub route_id_or : Option RouteEntry → String → String
  route_id_or none id = id
  route_id_or (some entry) id = entry.id

  -- `n` counts the ids that the routes before take.
  unfoldable pub merge_route_entries : ℕ → List RouteInput → List RouteEntry → List RouteEntry
  merge_route_entries n [] existing = []
  merge_route_entries n (route ∷ routes) existing =
      let matching =
        find (λ (c : RouteEntry). c.label =ₛ route.label && c.url =ₛ route.url) existing in
      record {
        id = route_id_or matching (platform.fresh "route_" n);
        label = route.label;
        url = route.url;
      }
      ∷ merge_route_entries (suc n) routes existing

  -- `header.name.trim().toLowerCase() === name.trim().toLowerCase()`
  abbrev pub same_header : String → RequestHeader → Bool
  same_header name header =
      platform.lower_case (platform.trim header.name) =ₛ platform.lower_case (platform.trim name)

  abbrev pub headers_of : Option RequestConfig → List RequestHeader
  headers_of none = []
  headers_of (some config) = config.headers

  abbrev pub value_of : Option RequestHeader → Attempt String
  value_of none = thrown invalid
  value_of (some header) = done header.value

  unfoldable pub resolve_masked_header_value :
      String → String → Option RequestConfig → Attempt String
  unfolding is_sensitive_header_name
  resolve_masked_header_value name value existing =
      if not (value =ₛ redacted_value) || not (is_sensitive_header_name (codes name))
      then done value
      else value_of (find (same_header name) (headers_of existing))

  unfoldable pub normalize_headers :
      List RequestHeader → Option RequestConfig → Attempt (List RequestHeader)
  unfolding require_trimmed_text resolve_masked_header_value
  normalize_headers [] existing = done []
  normalize_headers (header ∷ headers) existing = require_trimmed_text header.name >>= λ name.
      resolve_masked_header_value header.name (platform.trim header.value) existing >>= λ value.
      normalize_headers headers existing >>= λ rest.
      done (record { name = name; value = value } ∷ rest)

  abbrev pub normalize_body : Option RequestBody → Option RequestBody
  normalize_body none = none
  normalize_body (some body) =
      some (record { content_type = normalize_optional_text body.content_type; value = body.value })

  abbrev pub method_of : Option RequestConfig → String
  method_of none = "GET"
  method_of (some config) = config.method

  abbrev pub body_of : Option RequestConfig → Option RequestBody
  body_of none = none
  body_of (some config) = config.body

  unfoldable pub normalize_custom_request_config :
      Option RequestConfig → Option RequestConfig → Attempt RequestConfig
  unfolding normalize_headers normalize_optional_text
  normalize_custom_request_config request existing =
      normalize_headers (headers_of request) existing >>= λ headers. done (record {
        method = method_of request;
        headers = headers;
        body = normalize_body (body_of request);
      })
