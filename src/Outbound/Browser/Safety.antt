-- ===== src/Outbound/Browser/Safety.antt =====
-- What a request of the audited page that is let through is.
use webperf_selfhosted.Base.{
  ℕ, String, subst, ◌≡◌, refl, Bool, true, false, not, ◌&&◌, ◌||◌, Option, none, some, List, [],
  ◌∷◌, every, ◌=ₛ◌, if◌then◌else◌, arith, Bool-cases, inl, inr,
}
use webperf_selfhosted.Domain.Url.{Url}
use webperf_selfhosted.Outbound.Words.{normalize_outbound_hostname}
use webperf_selfhosted.Outbound.Policy.{Net, is_address}
use webperf_selfhosted.Outbound.Resolve.{
  Lookup, addresses, lookup_failed, lookup_aborted, has_outbound_scheme, is_local_name,
}
use webperf_selfhosted.Outbound.Resolve.Safety.{found_addresses}
use webperf_selfhosted.Outbound.Browser.{
  matches_allowlist, has_allowed_port, ResolvedBrowserRequestTarget, assert_public_address,
  browser_target, select_browser, from_browser_lookup, resolve_browser_url, resolve_browser_parsed,
  resolve_browser_request_target,
}

module _ (net : Net) (lookup_host : List ℕ → Lookup) (allowlist : List (List ℕ)) where
  abbrev host : Url → List ℕ
  host url = normalize_outbound_hostname url.hostname

  -- Of a request that is let through: its URL, whether its host is listed, and, if it is not, its name and
  -- its addresses.
  pub record IsBrowserSafe (t : ResolvedBrowserRequestTarget) : Type 0 where
    pub scheme : has_outbound_scheme t.url ≡ true
    pub credentials : (not (t.url.username =ₛ "") || not (t.url.password =ₛ "")) ≡ false
    pub port : has_allowed_port t.url ≡ true
    pub listed : t.allowlisted ≡ matches_allowlist (host t.url) allowlist
    pub local : t.allowlisted ≡ false → is_local_name (host t.url) ≡ false
    pub public : t.allowlisted ≡ false → assert_public_address net t.address ≡ true
    pub name :
        t.allowlisted ≡ false
        → is_address net (host t.url) ≡ false
        → every (assert_public_address net) (found_addresses (lookup_host (host t.url))) ≡ true

  abbrev SafeIfThere : Option ResolvedBrowserRequestTarget → Type 0
  SafeIfThere none = Unit {0}
  SafeIfThere (some t) = IsBrowserSafe t

  record HasGoodUrl (url : Url) (allowlisted : Bool) : Type 0 where
    scheme : not (has_outbound_scheme url) ≡ false
    credentials : (not (url.username =ₛ "") || not (url.password =ₛ "")) ≡ false
    port : not (has_allowed_port url) ≡ false
    local : (not allowlisted && is_local_name (host url)) ≡ false
    listed : allowlisted ≡ matches_allowlist (host url) allowlist

  holds_unless : (b : Bool) → not b ≡ false → b ≡ true
  holds_unless b h = ground (arith, h)

  and_none : (a b : Bool) → (not a && b) ≡ false → a ≡ false → b ≡ false
  and_none a b h k = ground (arith, h, k)

  safe_target :
      (url : Url) (allowlisted : Bool) (address : List ℕ)
      → HasGoodUrl url allowlisted
      → (allowlisted ≡ false → assert_public_address net address ≡ true)
      → (allowlisted ≡ false
          → is_address net (host url) ≡ false
          → every (assert_public_address net) (found_addresses (lookup_host (host url))) ≡ true)
      → SafeIfThere (browser_target net url allowlisted address)
  safe_target url allowlisted address good own others = record {
    scheme = holds_unless (has_outbound_scheme url) good.scheme;
    credentials = good.credentials;
    port = holds_unless (has_allowed_port url) good.port;
    listed = good.listed;
    local = and_none allowlisted (is_local_name (host url)) good.local;
    public = own;
    name = others;
  }

  first_every :
      (a : List ℕ) (found : List (List ℕ))
      → every (assert_public_address net) (a ∷ found) ≡ true
      → assert_public_address net a ≡ true
  first_every a found h = ground (arith, h)

  select_safe :
      (url : Url) (allowlisted : Bool) (found : List (List ℕ))
      → HasGoodUrl url allowlisted
      → lookup_host (host url) ≡ addresses found
      → SafeIfThere (select_browser net url allowlisted found)
  select_safe url allowlisted [] good looked = tt
  select_safe url allowlisted (a ∷ found) good looked =
      let all = every (assert_public_address net) (a ∷ found) in
      elim (Bool-cases (not (every (is_address net) (a ∷ found)))) [
        | inl t ↦ rw t tt
        | inr t ↦ elim (Bool-cases (not allowlisted && not all)) [
          | inl u ↦ rw (t, u) tt
          | inr u ↦
              let public : allowlisted ≡ false → all ≡ true =
                λ k. holds_unless all (and_none allowlisted (not all) u k) in
              rw (t, u)
                (safe_target url allowlisted a good (λ k. first_every a found (public k))
                  (λ k literal. rw looked (public k)))
        ]
      ]

  lookup_safe :
      (url : Url) (allowlisted : Bool) (outcome : Lookup)
      → HasGoodUrl url allowlisted
      → lookup_host (host url) ≡ outcome
      → SafeIfThere (from_browser_lookup net url allowlisted outcome)
  lookup_safe url allowlisted (addresses found) good looked =
      select_safe url allowlisted found good looked
  lookup_safe url allowlisted lookup_failed good looked = tt
  lookup_safe url allowlisted lookup_aborted good looked = tt

  good_safe :
      (url : Url) (allowlisted : Bool)
      → HasGoodUrl url allowlisted
      → SafeIfThere (
          if is_address net (host url)
          then if not allowlisted && not (assert_public_address net (host url))
            then none
            else browser_target net url allowlisted (host url)
          else from_browser_lookup net url allowlisted (lookup_host (host url)))
  good_safe url allowlisted good = elim (Bool-cases (is_address net (host url))) [
    | inl t ↦ elim (Bool-cases (not allowlisted && not (assert_public_address net (host url)))) [
      | inl u ↦ rw (t, u) tt
      | inr u ↦
          rw (t, u)
            (safe_target url allowlisted (host url) good
              (λ k.
                holds_unless (assert_public_address net (host url))
                  (and_none allowlisted (not (assert_public_address net (host url))) u k))
              (λ k no. absurd (cc)))
    ]
    | inr t ↦ rw t (lookup_safe url allowlisted (lookup_host (host url)) good refl)
  ]

  url_safe : (url : Url) → SafeIfThere (resolve_browser_url net lookup_host allowlist url)
  url_safe url =
      let allowlisted = matches_allowlist (host url) allowlist in
      elim (Bool-cases (not (has_outbound_scheme url))) [
        | inl t ↦ rw t tt
        | inr t ↦ elim (Bool-cases (not (url.username =ₛ "") || not (url.password =ₛ ""))) [
          | inl u ↦ rw (t, u) tt
          | inr u ↦ elim (Bool-cases (not (has_allowed_port url))) [
            | inl v ↦ rw (t, u, v) tt
            | inr v ↦ elim (Bool-cases (not allowlisted && is_local_name (host url))) [
              | inl w ↦ rw (t, u, v, w) tt
              | inr w ↦
                  rw (t, u, v, w)
                    (good_safe url allowlisted
                      (record { scheme = t; credentials = u; port = v; local = w; listed = refl }))
            ]
          ]
        ]
      ]

  parsed_safe :
      (url : Option Url) → SafeIfThere (resolve_browser_parsed net lookup_host allowlist url)
  parsed_safe none = tt
  parsed_safe (some url) = url_safe url

  -- A request of the page that is let through, whatever the URL and the lookup, is of http or https,
  -- without credentials and at no port but 80 and 443; and unless its host is on the list, the host is no
  -- local name, the address is public, and so is every address that was found for a host that is
  -- a name.
  pub resolve_browser_request_target-IsBrowserSafe :
      (parse_url : String → Option Url) (value : String) (t : ResolvedBrowserRequestTarget)
      → resolve_browser_request_target net lookup_host allowlist parse_url value ≡ some t
      → IsBrowserSafe t
  unfolding resolve_browser_request_target
  resolve_browser_request_target-IsBrowserSafe parse_url value t h =
      subst SafeIfThere h (parsed_safe (parse_url value))
