-- ===== src/Domain/Url.antt =====
-- packages/domain-core/src/index.ts: validateMeasurementUrl. The parser of URLs, and the value of a
-- numeric label of a host name, are parameters: `new URL(…)` and `Number(…)` of the platform.
pub mod Blocks
pub mod Literals
use webperf_selfhosted.Base.{
  ℕ, String, Bool, true, false, not, ◌&&◌, ◌||◌, Option, none, some, List, [], ◌∷◌, leb, ◌==◌,
  if◌then◌else◌, ◌=ₛ◌, length, any, map, codes, to_lower, same_text, starts_with, ends_with, split,
}

-- The parts of a URL that are read.
pub record Url : Type 0 where
  pub protocol : String
  pub username : String
  pub password : String
  pub port : String
  pub hostname : List ℕ
  -- `url.toString()`
  pub href : String

pub data UrlErrorCode : Type 0 where
  invalid_url invalid_scheme embedded_credentials invalid_port private_hostname : UrlErrorCode
  private_ip : UrlErrorCode

pub data Validated : Type 0 where
  accepted : Url → Validated
  refused : UrlErrorCode → Validated

abbrev pub is_empty_text : List ℕ → Bool
is_empty_text [] = true
is_empty_text (c ∷ cs) = false

-- The tests on the first two numbers of an IPv4 address.
unfoldable pub is_private_pair : ℕ → ℕ → Bool
is_private_pair a b =
    a == 0
    || a == 10
    || a == 127
    || (a == 100 && leb 64 b && leb b 127)
    || (a == 169 && b == 254)
    || (a == 172 && leb 16 b && leb b 31)
    || (a == 192 && b == 168)
    || (a == 198 && (b == 18 || b == 19))

abbrev pub lowered : List ℕ → List ℕ
lowered = map to_lower

unfoldable pub is_ipv6_private : List ℕ → Bool
unfolding same_text starts_with
is_ipv6_private hostname =
    let normalized = lowered hostname in
    any (λ c. c == b':') hostname
    && (same_text normalized (codes "::1")
        || same_text normalized (codes "::")
        || starts_with (codes "fc") normalized
        || starts_with (codes "fd") normalized
        || starts_with (codes "fe80:") normalized
        || starts_with (codes "fe90:") normalized
        || starts_with (codes "fea0:") normalized
        || starts_with (codes "feb0:") normalized)

unfoldable pub is_forbidden_hostname : List ℕ → Bool
unfolding same_text ends_with
is_forbidden_hostname hostname =
    same_text hostname (codes "localhost")
    || ends_with (codes ".localhost") hostname
    || ends_with (codes ".local") hostname
    || ends_with (codes ".internal") hostname

-- `number` is the value of a label, or `none` where it is NaN.
module _ (number : List ℕ → Option ℕ) where
  abbrev pub is_nan : List ℕ → Bool
  is_nan part = elim (number part) [ none ↦ true | some n ↦ false ]

  abbrev pub is_private_values : Option ℕ → Option ℕ → Bool
  is_private_values (some a) (some b) = is_private_pair a b
  is_private_values _ _ = false

  abbrev pub is_private_parts : List (List ℕ) → Bool
  is_private_parts (a ∷ b ∷ c ∷ d ∷ []) =
      if any (λ part. is_empty_text part || is_nan part) (a ∷ b ∷ c ∷ d ∷ [])
      then false
      else is_private_values (number a) (number b)
  is_private_parts _ = false

  unfoldable pub is_ipv4_private : List ℕ → Bool
  unfolding split is_private_pair
  is_ipv4_private hostname = is_private_parts (split b'.' hostname)

  unfoldable pub is_forbidden_ip_literal : List ℕ → Bool
  unfolding is_ipv4_private is_ipv6_private
  is_forbidden_ip_literal hostname = is_ipv4_private hostname || is_ipv6_private hostname

  abbrev pub validate_parsed : Option Url → Validated
  validate_parsed none = refused invalid_url
  validate_parsed (some url) =
      let hostname = lowered url.hostname in
      if not (url.protocol =ₛ "http:" || url.protocol =ₛ "https:")
      then refused invalid_scheme
      else if not (url.username =ₛ "") || not (url.password =ₛ "")
      then refused embedded_credentials
      else if not (url.port =ₛ "") && not (url.port =ₛ "80" || url.port =ₛ "443")
      then refused invalid_port
      else if is_forbidden_hostname hostname
      then refused private_hostname
      else if is_forbidden_ip_literal hostname
      then refused private_ip
      else accepted url

  unfoldable pub validate_measurement_url : (String → Option Url) → String → Validated
  unfolding is_forbidden_hostname is_forbidden_ip_literal
  validate_measurement_url parse_url value = validate_parsed (parse_url value)
