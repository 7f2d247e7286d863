-- ===== src/Outbound/Resolve/Safety.antt =====
-- What a target that resolves is: the policy lets its address through, and every address that its name has.
use webperf_selfhosted.Base.{
  ℕ, String, subst, ◌≡◌, refl, Bool, true, false, not, ◌&&◌, ◌||◌, Option, none, some, List, [],
  ◌∷◌, every, ◌=ₛ◌, arith, Bool-cases, inl, inr,
}
use webperf_selfhosted.Domain.Url.{Url}
use webperf_selfhosted.Outbound.Words.{normalize_outbound_hostname}
use webperf_selfhosted.Outbound.Policy.{
  Net, OutboundAddressPolicy, is_address, assert_address_policy,
}
use webperf_selfhosted.Outbound.Resolve.{
  Lookup, addresses, lookup_failed, lookup_aborted, ResolvedOutboundTarget, OutboundErrorCode,
  Resolution, resolved, policy_error, aborted, has_outbound_scheme, is_blocked_name, first_error,
  selected, from_lookup, resolve_url, resolve_parsed, resolve_outbound_http_target,
}

-- The addresses that a name has; none where the lookup fails.
abbrev pub found_addresses : Lookup → List (List ℕ)
found_addresses (addresses found) = found
found_addresses lookup_failed = []
found_addresses lookup_aborted = []

module _ (net : Net) (policy : OutboundAddressPolicy) where
  -- An address that the policy lets through.
  abbrev pub is_allowed : List ℕ → Bool
  is_allowed address = is_address net address && assert_address_policy net address policy

  -- Of a target that resolves: its scheme, that it has no credentials, its address, and the addresses of
  -- its name, if this is no address itself.
  pub record IsSafe (lookup_host : List ℕ → Lookup) (t : ResolvedOutboundTarget) : Type 0 where
    pub scheme : has_outbound_scheme t.url ≡ true
    pub username : (t.url.username =ₛ "") ≡ true
    pub password : (t.url.password =ₛ "") ≡ true
    pub family : t.family ≡ net.is_ip t.address
    pub allowed : is_allowed t.address ≡ true
    pub name :
        is_address net (normalize_outbound_hostname t.url.hostname) ≡ false
        → every
            (λ a. is_allowed (normalize_outbound_hostname a))
            (found_addresses (lookup_host (normalize_outbound_hostname t.url.hostname)))
          ≡ true

  abbrev pub SafeIfResolved : (List ℕ → Lookup) → Resolution → Type 0
  SafeIfResolved lookup_host (resolved t) = IsSafe lookup_host t
  SafeIfResolved lookup_host (policy_error code) = Unit {0}
  SafeIfResolved lookup_host aborted = Unit {0}

  first_error-none :
      (found : List (List ℕ))
      → first_error net policy found ≡ none
      → every (λ a. is_allowed (normalize_outbound_hostname a)) found ≡ true
  unfolding first_error
  first_error-none [] h = refl
  first_error-none (a ∷ found) h = ground (arith, h, first_error-none found)

  -- The tests on the URL itself.
  record HasGoodUrl (url : Url) : Type 0 where
    scheme : has_outbound_scheme url ≡ true
    username : (url.username =ₛ "") ≡ true
    password : (url.password =ₛ "") ≡ true

  good_url :
      (url : Url)
      → (not (has_outbound_scheme url) || not (url.username =ₛ "") || not (url.password =ₛ ""))
        ≡ false
      → HasGoodUrl url
  good_url url h = record {
    scheme = ground (arith, h);
    username = ground (arith, h);
    password = ground (arith, h);
  }

  and_left : (a b : Bool) → (a && b) ≡ true → a ≡ true
  and_left a b h = ground (arith, h)

  selected_safe :
      (lookup_host : List ℕ → Lookup) (url : Url) (found : List (List ℕ))
      (error : Option OutboundErrorCode)
      → HasGoodUrl url
      → lookup_host (normalize_outbound_hostname url.hostname) ≡ addresses found
      → first_error net policy found ≡ error
      → SafeIfResolved lookup_host (selected net policy url found error)
  selected_safe lookup_host url found (some code) good looked e = tt
  selected_safe lookup_host url [] none good looked e = tt
  selected_safe lookup_host url (a ∷ found) none good looked e =
      let all = first_error-none (a ∷ found) e in
      record {
        scheme = good.scheme;
        username = good.username;
        password = good.password;
        family = refl;
        allowed =
            and_left (is_allowed (normalize_outbound_hostname a))
              (every (λ b. is_allowed (normalize_outbound_hostname b)) found) all;
        name = λ literal. rw looked all;
      }

  from_lookup_safe :
      (lookup_host : List ℕ → Lookup) (url : Url) (outcome : Lookup)
      → HasGoodUrl url
      → lookup_host (normalize_outbound_hostname url.hostname) ≡ outcome
      → SafeIfResolved lookup_host (from_lookup net policy url outcome)
  from_lookup_safe lookup_host url (addresses found) good looked =
      selected_safe lookup_host url found (first_error net policy found) good looked refl
  from_lookup_safe lookup_host url lookup_failed good looked = tt
  from_lookup_safe lookup_host url lookup_aborted good looked = tt

  literal-IsSafe :
      (lookup_host : List ℕ → Lookup) (url : Url)
      → HasGoodUrl url
      → is_address net (normalize_outbound_hostname url.hostname) ≡ true
      → assert_address_policy net (normalize_outbound_hostname url.hostname) policy ≡ true
      → IsSafe lookup_host (record {
        url = url;
        address = normalize_outbound_hostname url.hostname;
        family = net.is_ip (normalize_outbound_hostname url.hostname);
      })
  literal-IsSafe lookup_host url good h k = record {
    scheme = good.scheme;
    username = good.username;
    password = good.password;
    family = refl;
    allowed = rw (h, k) refl;
    name = λ no. absurd (cc);
  }

  resolve_url_safe :
      (lookup_host : List ℕ → Lookup) (url : Url)
      → SafeIfResolved lookup_host (resolve_url net policy lookup_host url)
  resolve_url_safe lookup_host url =
      let hostname = normalize_outbound_hostname url.hostname in
      elim (Bool-cases
        (not (has_outbound_scheme url) || not (url.username =ₛ "") || not (url.password =ₛ ""))) [
          | inl t ↦ rw t tt
          | inr t ↦ elim (Bool-cases (is_address net hostname)) [
            | inl u ↦ elim (Bool-cases (assert_address_policy net hostname policy)) [
              | inl v ↦ rw (t, u, v) (literal-IsSafe lookup_host url (good_url url t) u v)
              | inr v ↦ rw (t, u, v) tt
            ]
            | inr u ↦ elim (Bool-cases (is_blocked_name policy hostname)) [
              | inl v ↦ rw (t, u, v) tt
              | inr v ↦
                  rw (t, u, v)
                    (from_lookup_safe lookup_host url (lookup_host hostname) (good_url url t) refl)
            ]
          ]
        ]

  parsed_safe :
      (lookup_host : List ℕ → Lookup) (url : Option Url)
      → SafeIfResolved lookup_host (resolve_parsed net policy lookup_host url)
  parsed_safe lookup_host none = tt
  parsed_safe lookup_host (some url) = resolve_url_safe lookup_host url

  -- A target that resolves, whatever the URL is and whatever the lookup comes to, has a URL of http or
  -- https without credentials, and an address that the policy lets through; and unless the host is an
  -- address itself, every address that was found for the name is one that the policy lets through.
  pub resolve_outbound_http_target-IsSafe :
      (parse_url : String → Option Url) (lookup_host : List ℕ → Lookup) (value : String)
      (t : ResolvedOutboundTarget)
      → resolve_outbound_http_target net policy parse_url lookup_host value ≡ resolved t
      → IsSafe lookup_host t
  unfolding resolve_outbound_http_target
  resolve_outbound_http_target-IsSafe parse_url lookup_host value t h =
      subst (SafeIfResolved lookup_host) h (parsed_safe lookup_host (parse_url value))
