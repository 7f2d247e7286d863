-- ===== src/Outbound/Browser.antt =====
-- apps/browser-audit-lighthouse/src/network-policy.ts: resolveBrowserRequestTarget and what it calls. Every
-- refusal throws a BrowserNetworkPolicyError: `none`.
pub mod Safety
use webperf_selfhosted.Base.{
  ℕ, String, Bool, true, false, not, ◌&&◌, ◌||◌, Option, none, some, List, [], ◌∷◌, map, every, any,
  drop, ◌==◌, ◌=ₛ◌, if◌then◌else◌, codes, to_lower, same_text, starts_with, ends_with,
}
use webperf_selfhosted.Domain.Url.{Url}
use webperf_selfhosted.Redaction.Names.{drop_spaces, cut_spaces}
use webperf_selfhosted.Outbound.Words.{
  without_brackets, normalize_outbound_hostname, words_of_normalized, mapped_text,
}
use webperf_selfhosted.Outbound.Policy.{
  Net, Family, Subnet, v6, blocked_addresses, family_of, is_address,
}
use webperf_selfhosted.Outbound.Resolve.{
  Lookup, addresses, lookup_failed, lookup_aborted, has_outbound_scheme, is_local_name,
}

abbrev pub blocked_unnormalized_mapped_addresses : List Subnet
blocked_unnormalized_mapped_addresses = v6 "::ffff:0:0" 96 ∷ []

-- `entry.trim()`, in the white space of ASCII.
unfoldable pub matches_entry : List ℕ → List ℕ → Bool
unfolding drop_spaces cut_spaces same_text starts_with ends_with normalize_outbound_hostname
matches_entry hostname entry =
    let normalized = normalize_outbound_hostname (cut_spaces (drop_spaces entry)) in
    if starts_with (codes "*.") normalized
    then ends_with (drop 1 normalized) hostname
    else same_text hostname normalized

unfoldable pub matches_allowlist : List ℕ → List (List ℕ) → Bool
unfolding matches_entry
matches_allowlist hostname allowlist = any (matches_entry hostname) allowlist

abbrev pub has_allowed_port : Url → Bool
has_allowed_port url = url.port =ₛ "" || url.port =ₛ "80" || url.port =ₛ "443"

pub record ResolvedBrowserRequestTarget : Type 0 where
  pub url : Url
  pub address : List ℕ
  pub family : ℕ
  pub allowlisted : Bool

module _ (net : Net) where
  -- Its parser of words strips no dot at the end.
  unfoldable pub normalize_browser_mapped_ipv4 : List ℕ → List ℕ
  unfolding words_of_normalized
  normalize_browser_mapped_ipv4 address =
      mapped_text net.is_ip address
        (words_of_normalized net.is_ip (without_brackets (map to_lower address)))

  -- Whether `assertPublicAddress` returns.
  unfoldable pub assert_public_address : List ℕ → Bool
  unfolding normalize_browser_mapped_ipv4
  assert_public_address raw_address =
      let address = normalize_browser_mapped_ipv4 raw_address in
      not (
        not (is_address net address)
        || net.check blocked_addresses address (family_of net address)
        || (net.is_ip address == 6
            && net.check blocked_unnormalized_mapped_addresses address Family.ipv6))

  abbrev pub browser_target : Url → Bool → List ℕ → Option ResolvedBrowserRequestTarget
  browser_target url allowlisted address = some (record {
    url = url;
    address = address;
    family = net.is_ip address;
    allowlisted = allowlisted;
  })

  abbrev pub select_browser : Url → Bool → List (List ℕ) → Option ResolvedBrowserRequestTarget
  select_browser url allowlisted [] = none
  select_browser url allowlisted (address ∷ rest) =
      if not (every (is_address net) (address ∷ rest))
      then none
      else if not allowlisted && not (every assert_public_address (address ∷ rest))
      then none
      else browser_target url allowlisted address

  abbrev pub from_browser_lookup : Url → Bool → Lookup → Option ResolvedBrowserRequestTarget
  from_browser_lookup url allowlisted lookup_failed = none
  from_browser_lookup url allowlisted lookup_aborted = none
  from_browser_lookup url allowlisted (addresses found) = select_browser url allowlisted found

  module _ (lookup_host : List ℕ → Lookup) (allowlist : List (List ℕ)) where
    abbrev pub resolve_browser_url : Url → Option ResolvedBrowserRequestTarget
    resolve_browser_url url =
        let hostname = normalize_outbound_hostname url.hostname in
        let allowlisted = matches_allowlist hostname allowlist in
        if not (has_outbound_scheme url)
        then none
        else if not (url.username =ₛ "") || not (url.password =ₛ "")
        then none
        else if not (has_allowed_port url)
        then none
        else if not allowlisted && is_local_name hostname
        then none
        else if is_address net hostname
        then if not allowlisted && not (assert_public_address hostname)
          then none
          else browser_target url allowlisted hostname
        else from_browser_lookup url allowlisted (lookup_host hostname)

    abbrev pub resolve_browser_parsed : Option Url → Option ResolvedBrowserRequestTarget
    resolve_browser_parsed none = none
    resolve_browser_parsed (some url) = resolve_browser_url url

    unfoldable pub resolve_browser_request_target :
        (String → Option Url) → String → Option ResolvedBrowserRequestTarget
    unfolding assert_public_address matches_allowlist normalize_outbound_hostname is_local_name
    resolve_browser_request_target parse_url value = resolve_browser_parsed (parse_url value)
