-- ===== src/Domain/Url/Blocks.antt =====
-- The reserved blocks of IPv4 addresses that a measurement URL may not name.
use webperf_selfhosted.Domain.Url.{
  refused, invalid_scheme, embedded_credentials, invalid_port, private_hostname, private_ip,
  validate_parsed,
}
use mathlib.Core.Path.{subst}
use webperf_selfhosted.Base.{
  if◌then◌else◌, ℕ, ◌+◌, ◌*◌, ◌≤◌, ◌≡◌, String, Bool, false, ◌&&◌, Option, none, some, List, [],
  ◌∷◌, ltb, leb, ◌==◌, any, arith, split,
}
use webperf_selfhosted.Domain.Url.{
  is_private_pair, is_ipv4_private, is_forbidden_ip_literal, lowered, Url, accepted,
  validate_measurement_url, is_empty_text,
}

-- The address a.b.c.d.
abbrev pub address : ℕ → ℕ → ℕ → ℕ → ℕ
address a b c d = ((a * 256 + b) * 256 + c) * 256 + d

-- A block: its first address and the number of its addresses.
abbrev pub in_block : ℕ → ℕ × ℕ → Bool
in_block x (first, size) = leb first x && ltb x (first + size)

-- 0/8, 10/8, 127/8, 100.64/10, 169.254/16, 172.16/12, 192.168/16 and 198.18/15.
abbrev pub reserved_blocks : List (ℕ × ℕ)
reserved_blocks =
    (address 0 0 0 0, 16777216)
    ∷ (address 10 0 0 0, 16777216)
    ∷ (address 127 0 0 0, 16777216)
    ∷ (address 100 64 0 0, 4194304)
    ∷ (address 169 254 0 0, 65536)
    ∷ (address 172 16 0 0, 1048576)
    ∷ (address 192 168 0 0, 65536)
    ∷ (address 198 18 0 0, 131072)
    ∷ []

module _ (a b c d : ℕ) (hb : b ≤ 255) (hc : c ≤ 255) (hd : d ≤ 255) where
  first_byte : (n : ℕ) → in_block (address a b c d) (address n 0 0 0, 16777216) ≡ (a == n)
  first_byte n = ground arith

  second_bytes :
      (n low span : ℕ)
      → low + span ≤ 256
      → in_block (address a b c d) (address n low 0 0, span * 65536)
        ≡ (a == n && leb low b && ltb b (low + span))
  second_bytes n low span h = ground arith

  -- The tests on the first two numbers of an address are its membership in a reserved block.
  pub is_private_pair-blocks :
      is_private_pair a b ≡ any (in_block (address a b c d)) reserved_blocks
  unfolding is_private_pair
  is_private_pair-blocks = ground (
    arith,
    first_byte 0,
    first_byte 10,
    first_byte 127,
    second_bytes 100 64 64,
    second_bytes 169 254 1,
    second_bytes 172 16 16,
    second_bytes 192 168 1,
    second_bytes 198 18 2,
  )

-- The host name names the address a.b.c.d: four labels that are not empty, with these values.
pub record Names (number : List ℕ → Option ℕ) (hostname : List ℕ) (a b c d : ℕ) : Type 0 where
  pub part_a : List ℕ
  pub part_b : List ℕ
  pub part_c : List ℕ
  pub part_d : List ℕ
  pub parts : split b'.' (lowered hostname) ≡ part_a ∷ part_b ∷ part_c ∷ part_d ∷ []
  pub filled : any is_empty_text (part_a ∷ part_b ∷ part_c ∷ part_d ∷ []) ≡ false
  pub value_a : number part_a ≡ some a
  pub value_b : number part_b ≡ some b
  pub value_c : number part_c ≡ some c
  pub value_d : number part_d ≡ some d

is_ipv4_private-pair :
    (number : List ℕ → Option ℕ) (hostname : List ℕ) (a b c d : ℕ)
    → Names number hostname a b c d
    → is_ipv4_private number (lowered hostname) ≡ is_private_pair a b
unfolding is_ipv4_private
is_ipv4_private-pair number hostname a b c d n =
    rw n.parts (ground (arith, n.filled, n.value_a, n.value_b, n.value_c, n.value_d))

guards :
    (scheme credentials port hostname literal : Bool) (found url : Url)
    → (if scheme
        then refused invalid_scheme
        else if credentials
        then refused embedded_credentials
        else if port
        then refused invalid_port
        else if hostname
        then refused private_hostname
        else if literal
        then refused private_ip
        else accepted found)
      ≡ accepted url
    → (literal ≡ false) × (found ≡ url)
guards scheme credentials port hostname literal found url h = ground arith

accepted_host :
    (number : List ℕ → Option ℕ) (parse_url : String → Option Url) (value : String) (url : Url)
    → validate_measurement_url number parse_url value ≡ accepted url
    → is_forbidden_ip_literal number (lowered url.hostname) ≡ false
unfolding validate_measurement_url
accepted_host number parse_url value url h = parsed (parse_url value) h
  where
    parsed :
        (found : Option Url)
        → validate_parsed number found ≡ accepted url
        → is_forbidden_ip_literal number (lowered url.hostname) ≡ false
    parsed none k = absurd (cc)
    parsed (some u) k =
        let (clear, same) = guards _ _ _ _ _ u url k in
        subst (λ (x : Url). is_forbidden_ip_literal number (lowered x.hostname) ≡ false) same clear

-- A measurement URL that is accepted and whose host names an IPv4 address a.b.c.d names one outside the reserved
-- blocks, whatever the parser of URLs yields and however labels are read as numbers.
pub validate_measurement_url-blocks :
    (number : List ℕ → Option ℕ) (parse_url : String → Option Url) (value : String) (url : Url)
    (a b c d : ℕ)
    → Names number url.hostname a b c d
    → b ≤ 255
    → c ≤ 255
    → d ≤ 255
    → validate_measurement_url number parse_url value ≡ accepted url
    → any (in_block (address a b c d)) reserved_blocks ≡ false
unfolding is_forbidden_ip_literal
validate_measurement_url-blocks number parse_url value url a b c d n hb hc hd h = ground (
  arith,
  accepted_host number parse_url value url h,
  is_ipv4_private-pair number url.hostname a b c d n,
  is_private_pair-blocks a b c d hb hc hd,
)
