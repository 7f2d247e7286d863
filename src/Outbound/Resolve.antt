-- ===== src/Outbound/Resolve.antt =====
-- apps/executor/src/outbound-http.ts: resolveOutboundHttpTarget. The parser of URLs is a parameter, and so
-- is what the lookup of a name comes to: its addresses, an error or a timeout, or an abort.
pub mod Safety
use webperf_selfhosted.Base.{
  ℕ, String, Bool, true, false, not, ◌&&◌, ◌||◌, Option, none, some, List, [], ◌∷◌, ◌==◌, ◌=ₛ◌,
  if◌then◌else◌, codes, same_text, ends_with,
}
use webperf_selfhosted.Domain.Url.{Url}
use webperf_selfhosted.Outbound.Words.{normalize_outbound_hostname}
use webperf_selfhosted.Outbound.Policy.{
  Net, OutboundAddressPolicy, public, loopback, trusted_private, is_address, assert_address_policy,
}

pub data Lookup : Type 0 where
  addresses : List (List ℕ) → Lookup
  lookup_failed lookup_aborted : Lookup

pub record ResolvedOutboundTarget : Type 0 where
  pub url : Url
  pub address : List ℕ
  pub family : ℕ

pub data OutboundErrorCode : Type 0 where
  invalid_target dns_failed address_blocked : OutboundErrorCode

pub data Resolution : Type 0 where
  resolved : ResolvedOutboundTarget → Resolution
  policy_error : OutboundErrorCode → Resolution
  aborted : Resolution

abbrev pub has_outbound_scheme : Url → Bool
has_outbound_scheme url = url.protocol =ₛ "http:" || url.protocol =ₛ "https:"

unfoldable pub is_local_name : List ℕ → Bool
unfolding same_text ends_with
is_local_name hostname =
    same_text hostname (codes "localhost")
    || ends_with (codes ".localhost") hostname
    || ends_with (codes ".local") hostname
    || ends_with (codes ".internal") hostname

abbrev pub is_loopback : OutboundAddressPolicy → Bool
is_loopback loopback = true
is_loopback public = false
is_loopback trusted_private = false

abbrev pub is_trusted_private : OutboundAddressPolicy → Bool
is_trusted_private trusted_private = true
is_trusted_private public = false
is_trusted_private loopback = false

unfoldable pub is_blocked_name : OutboundAddressPolicy → List ℕ → Bool
unfolding same_text
is_blocked_name policy hostname =
    not (is_trusted_private policy)
    && is_local_name hostname
    && not (is_loopback policy && same_text hostname (codes "localhost"))

module _ (net : Net) (policy : OutboundAddressPolicy) where
  -- The error of the first address that is none or is not allowed.
  unfoldable pub first_error : List (List ℕ) → Option OutboundErrorCode
  unfolding normalize_outbound_hostname
  first_error [] = none
  first_error (address ∷ rest) =
      let later = first_error rest in
      let normalized = normalize_outbound_hostname address in
      if not (is_address net normalized)
      then some dns_failed
      else if not (assert_address_policy net normalized policy)
      then some address_blocked
      else later

  abbrev pub target_at : Url → List ℕ → Resolution
  target_at url address =
      resolved (record { url = url; address = address; family = net.is_ip address })

  abbrev pub selected : Url → List (List ℕ) → Option OutboundErrorCode → Resolution
  selected url found (some code) = policy_error code
  selected url [] none = policy_error dns_failed
  selected url (address ∷ rest) none = target_at url (normalize_outbound_hostname address)

  abbrev pub from_lookup : Url → Lookup → Resolution
  from_lookup url lookup_failed = policy_error dns_failed
  from_lookup url lookup_aborted = aborted
  from_lookup url (addresses found) = selected url found (first_error found)

  abbrev pub resolve_url : (List ℕ → Lookup) → Url → Resolution
  resolve_url lookup_host url =
      let hostname = normalize_outbound_hostname url.hostname in
      if not (has_outbound_scheme url) || not (url.username =ₛ "") || not (url.password =ₛ "")
      then policy_error invalid_target
      else if is_address net hostname
      then if assert_address_policy net hostname policy
        then target_at url hostname
        else policy_error address_blocked
      else if is_blocked_name policy hostname
      then policy_error address_blocked
      else from_lookup url (lookup_host hostname)

  abbrev pub resolve_parsed : (List ℕ → Lookup) → Option Url → Resolution
  resolve_parsed lookup_host none = policy_error invalid_target
  resolve_parsed lookup_host (some url) = resolve_url lookup_host url

  unfoldable pub resolve_outbound_http_target :
      (String → Option Url) → (List ℕ → Lookup) → String → Resolution
  unfolding first_error is_blocked_name normalize_outbound_hostname assert_address_policy
  resolve_outbound_http_target parse_url lookup_host value =
      resolve_parsed lookup_host (parse_url value)
