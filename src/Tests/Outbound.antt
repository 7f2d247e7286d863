-- ===== src/Tests/Outbound.antt =====
-- Targets of requests, resolved with a sample of the functions of node:net.
use webperf_selfhosted.Base.{
  ℕ, ◌≡◌, refl, Bool, false, ◌&&◌, Option, none, some, List, [], ◌∷◌, every, any, leb,
  if◌then◌else◌, arith, codes, same_text, split,
}
use webperf_selfhosted.Domain.Url.{Url}
use webperf_selfhosted.Report.Csv.{digits}
use webperf_selfhosted.Outbound.Words.{
  is_dotted, decimal_value, dotted_text, normalize_outbound_hostname, words_of_normalized,
  parse_ipv6_words,
}
use webperf_selfhosted.Outbound.Mapped.{mapped_address, assert_address_policy-mapped}
use webperf_selfhosted.Outbound.Policy.{
  Net, Subnet, public, is_address, passes, assert_address_policy,
}
use webperf_selfhosted.Outbound.Resolve.{
  Lookup, addresses, ResolvedOutboundTarget, resolved, is_local_name, resolve_outbound_http_target,
}
use webperf_selfhosted.Outbound.Resolve.Safety.{IsSafe, resolve_outbound_http_target-IsSafe}
use webperf_selfhosted.Outbound.Browser.{
  ResolvedBrowserRequestTarget, resolve_browser_request_target,
}
use webperf_selfhosted.Outbound.Browser.Safety.{
  IsBrowserSafe, resolve_browser_request_target-IsBrowserSafe,
}

-- Four numbers of at most 255 are an address; of the others only the loopback one is.
abbrev sample_is_ip : List ℕ → ℕ
sample_is_ip text =
    if is_dotted text && every (λ part. leb (decimal_value 0 part) 255) (split b'.' text)
    then 4
    else if same_text text (codes "::1")
    then 6
    else 0

abbrev first_label : List ℕ → Option (List ℕ)
first_label text = first (split b'.' text)
  where
    first : List (List ℕ) → Option (List ℕ)
    first [] = none
    first (part ∷ parts) = some part

abbrev same_label : Option (List ℕ) → Option (List ℕ) → Bool
same_label (some a) (some b) = same_text a b
same_label _ _ = false

-- A block is known by its first label.
abbrev sample_net : Net
sample_net = record {
  is_ip = sample_is_ip;
  check = λ subnets address family.
      any (λ (s : Subnet). same_label (first_label (codes s.network)) (first_label address))
        subnets;
}

abbrev named : Url
named = record {
  protocol = "https:";
  username = "";
  password = "";
  port = "";
  hostname = codes "web.dev";
  href = "";
}

abbrev sample_lookup : List ℕ → Lookup
sample_lookup hostname = addresses (codes "8.8.4.4" ∷ codes "1.1.1.1" ∷ [])

abbrev named_target : ResolvedOutboundTarget
named_target = record { url = named; address = codes "8.8.4.4"; family = 4 }

named_resolved :
    resolve_outbound_http_target sample_net public
      (λ value. some named)
      sample_lookup
      "https://web.dev/"
    ≡ resolved named_target
unfolding resolve_outbound_http_target is_dotted is_local_name decimal_value parse_ipv6_words
    words_of_normalized
named_resolved = refl

resolve_outbound_http_target-IsSafe_example : IsSafe sample_net public sample_lookup named_target
resolve_outbound_http_target-IsSafe_example =
    resolve_outbound_http_target-IsSafe sample_net public (λ value. some named) sample_lookup
      "https://web.dev/" named_target named_resolved

assert_address_policy-mapped_example :
    assert_address_policy sample_net (mapped_address 32512 1) public ≡ (
      is_address sample_net (dotted_text sample_is_ip 32512 1)
      && passes sample_net public (dotted_text sample_is_ip 32512 1))
assert_address_policy-mapped_example =
    assert_address_policy-mapped sample_net public 32512 1 (omega arith) (omega arith)

-- The mapped loopback address is refused.
mapped_refused : assert_address_policy sample_net (codes "::ffff:7f00:1") public ≡ false
unfolding assert_address_policy is_dotted parse_ipv6_words words_of_normalized
    normalize_outbound_hostname digits same_text
mapped_refused = refl

abbrev page_target : ResolvedBrowserRequestTarget
page_target = record { url = named; address = codes "8.8.4.4"; family = 4; allowlisted = false }

page_resolved :
    resolve_browser_request_target sample_net sample_lookup []
      (λ value. some named)
      "https://web.dev/"
    ≡ some page_target
unfolding resolve_browser_request_target
page_resolved = refl

resolve_browser_request_target-IsBrowserSafe_example :
    IsBrowserSafe sample_net sample_lookup [] page_target
resolve_browser_request_target-IsBrowserSafe_example =
    resolve_browser_request_target-IsBrowserSafe sample_net sample_lookup [] (λ value. some named)
      "https://web.dev/" page_target page_resolved
