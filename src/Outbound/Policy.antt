-- ===== src/Outbound/Policy.antt =====
-- apps/executor/src/outbound-http.ts: the block lists and assertAddressPolicy. The functions of node:net
-- are parameters.
use webperf_selfhosted.Base.{
  ℕ, String, Bool, false, not, ◌&&◌, ◌||◌, Option, none, some, List, [], ◌∷◌, every, take,
  get_elem?, ◌==◌, if◌then◌else◌, codes, same_text, split,
}
use webperf_selfhosted.Outbound.Words.{parse_ipv6_words, normalize_mapped_ipv4}

pub data Family : Type 0 where
  ipv4 ipv6 : Family

-- What was given to `addSubnet`.
pub record Subnet : Type 0 where
  pub network : String
  pub prefix : ℕ
  pub family : Family

abbrev pub v4 : String → ℕ → Subnet
v4 network prefix = record { network = network; prefix = prefix; family = Family.ipv4 }

abbrev pub v6 : String → ℕ → Subnet
v6 network prefix = record { network = network; prefix = prefix; family = Family.ipv6 }

-- `is_ip` is isIP: 4, 6, or 0; `check` is BlockList.check for a list with these subnets.
pub record Net : Type 0 where
  pub is_ip : List ℕ → ℕ
  pub check : List Subnet → List ℕ → Family → Bool

abbrev pub blocked_addresses : List Subnet
blocked_addresses =
    v4 "0.0.0.0" 8
    ∷ v4 "10.0.0.0" 8
    ∷ v4 "100.64.0.0" 10
    ∷ v4 "127.0.0.0" 8
    ∷ v4 "169.254.0.0" 16
    ∷ v4 "172.16.0.0" 12
    ∷ v4 "192.0.0.0" 24
    ∷ v4 "192.0.2.0" 24
    ∷ v4 "192.168.0.0" 16
    ∷ v4 "198.18.0.0" 15
    ∷ v4 "198.51.100.0" 24
    ∷ v4 "203.0.113.0" 24
    ∷ v4 "224.0.0.0" 4
    ∷ v4 "240.0.0.0" 4
    ∷ v6 "::" 96
    ∷ v6 "64:ff9b::" 96
    ∷ v6 "100::" 64
    ∷ v6 "2001::" 32
    ∷ v6 "2001:db8::" 32
    ∷ v6 "2002::" 16
    ∷ v6 "fc00::" 7
    ∷ v6 "fe80::" 10
    ∷ v6 "ff00::" 8
    ∷ []

abbrev pub trusted_private_blocked_addresses : List Subnet
trusted_private_blocked_addresses =
    v4 "0.0.0.0" 8
    ∷ v4 "100.64.0.0" 10
    ∷ v4 "127.0.0.0" 8
    ∷ v4 "169.254.0.0" 16
    ∷ v4 "192.0.0.0" 24
    ∷ v4 "192.0.2.0" 24
    ∷ v4 "198.18.0.0" 15
    ∷ v4 "198.51.100.0" 24
    ∷ v4 "203.0.113.0" 24
    ∷ v4 "224.0.0.0" 4
    ∷ v4 "240.0.0.0" 4
    ∷ v6 "::" 96
    ∷ v6 "64:ff9b::" 96
    ∷ v6 "100::" 64
    ∷ v6 "2001::" 32
    ∷ v6 "2001:db8::" 32
    ∷ v6 "2002::" 16
    ∷ v6 "fe80::" 10
    ∷ v6 "ff00::" 8
    ∷ []

pub data OutboundAddressPolicy : Type 0 where
  public loopback trusted_private : OutboundAddressPolicy

abbrev pub is_127 : List (List ℕ) → Bool
is_127 [] = false
is_127 (part ∷ parts) = same_text part (codes "127")

abbrev pub is_one : Option ℕ → Bool
is_one none = false
is_one (some word) = word == 1

abbrev pub is_loopback_words : Option (List ℕ) → Bool
is_loopback_words none = false
is_loopback_words (some words) =
    every (λ word. word == 0) (take 7 words) && is_one (get_elem? words 7)

module _ (net : Net) where
  unfoldable pub is_loopback_address : List ℕ → Bool
  unfolding same_text split parse_ipv6_words
  is_loopback_address address =
      if net.is_ip address == 4
      then is_127 (split b'.' address)
      else if net.is_ip address == 6
      then is_loopback_words (parse_ipv6_words net.is_ip address)
      else false

  abbrev pub family_of : List ℕ → Family
  family_of address = if net.is_ip address == 4 then Family.ipv4 else Family.ipv6

  -- The address, of one of both families, and the test of the policy.
  abbrev pub passes : OutboundAddressPolicy → List ℕ → Bool
  passes loopback address = is_loopback_address address
  passes trusted_private address =
      not (net.check trusted_private_blocked_addresses address (family_of address))
  passes public address = not (net.check blocked_addresses address (family_of address))

  abbrev pub is_address : List ℕ → Bool
  is_address address = net.is_ip address == 4 || net.is_ip address == 6

  -- Whether `assertAddressPolicy` returns; it throws `address_blocked` where not.
  unfoldable pub assert_address_policy : List ℕ → OutboundAddressPolicy → Bool
  unfolding normalize_mapped_ipv4
  assert_address_policy raw_address policy =
      let address = normalize_mapped_ipv4 net.is_ip raw_address in
      if not (is_address address) then false else passes policy address
