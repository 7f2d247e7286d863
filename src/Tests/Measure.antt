-- ===== src/Tests/Measure.antt =====
-- The validation of measurement URLs, on sample URLs.
use webperf_selfhosted.Base.{
  ℕ, ◌+◌, ◌-◌, ◌*◌, ◌≡◌, String, refl, false, ◌&&◌, Option, none, some, List, [], ◌∷◌, leb, any,
  codes, if◌then◌else◌, arith, same_text, starts_with, ends_with, split,
}
use webperf_selfhosted.Domain.Url.{
  Url, accepted, refused, private_ip, is_private_pair, is_ipv4_private, is_ipv6_private,
  is_forbidden_hostname, is_forbidden_ip_literal, validate_measurement_url,
}
use webperf_selfhosted.Domain.Url.Blocks.{
  address, in_block, reserved_blocks, Names, validate_measurement_url-blocks,
}
use webperf_selfhosted.Domain.Url.Literals.{validate_measurement_url-bracketed}

-- The value of a label of decimal digits.
abbrev decimal_from : ℕ → List ℕ → Option ℕ
decimal_from n [] = some n
decimal_from n (c ∷ cs) =
    let rest = decimal_from (n * 10 + (c - b'0')) cs in
    if leb b'0' c && leb c b'9' then rest else none

abbrev pub decimal : List ℕ → Option ℕ
decimal = decimal_from 0

abbrev plain : List ℕ → Url
plain hostname = record {
  protocol = "http:";
  username = "";
  password = "";
  port = "";
  hostname = hostname;
  href = "";
}

abbrev parse_as : Url → String → Option Url
parse_as url value = some url

abbrev public_url : Url
public_url = plain (codes "8.8.4.4")

abbrev loopback_url : Url
loopback_url = plain (codes "[::1]")

public_accepted :
    validate_measurement_url decimal (parse_as public_url) "http://8.8.4.4/" ≡ accepted public_url
unfolding validate_measurement_url is_forbidden_hostname is_forbidden_ip_literal is_ipv4_private
    is_ipv6_private is_private_pair same_text starts_with ends_with split
public_accepted = refl

carrier_refused :
    validate_measurement_url decimal (parse_as (plain (codes "100.64.0.1"))) "http://100.64.0.1/"
    ≡ refused private_ip
unfolding validate_measurement_url is_forbidden_hostname is_forbidden_ip_literal is_ipv4_private
    is_ipv6_private is_private_pair same_text starts_with ends_with split
carrier_refused = refl

public_named : Names decimal (codes "8.8.4.4") 8 8 4 4
unfolding split
public_named = record {
  part_a = codes "8";
  part_b = codes "8";
  part_c = codes "4";
  part_d = codes "4";
  parts = refl;
  filled = refl;
  value_a = refl;
  value_b = refl;
  value_c = refl;
  value_d = refl;
}

validate_measurement_url-blocks_example : any (in_block (address 8 8 4 4)) reserved_blocks ≡ false
validate_measurement_url-blocks_example =
    validate_measurement_url-blocks decimal (parse_as public_url) "http://8.8.4.4/" public_url 8 8 4
      4 public_named (omega arith) (omega arith) (omega arith) public_accepted

validate_measurement_url-bracketed_example :
    validate_measurement_url decimal (parse_as loopback_url) "http://[::1]/" ≡ accepted loopback_url
validate_measurement_url-bracketed_example =
    validate_measurement_url-bracketed decimal (parse_as loopback_url) "http://[::1]/" loopback_url
      (codes "::1") refl refl refl refl refl refl refl
