-- ===== src/Outbound/Words.antt =====
-- apps/executor/src/outbound-http.ts: normalizeOutboundHostname, parseIpv6Words and normalizeMappedIpv4;
-- apps/browser-audit-lighthouse/src/network-policy.ts has the same, but for what its parser strips.
use webperf_selfhosted.Base.{
  ℕ, zero, suc, ◌+◌, ◌-◌, ◌*◌, ◌/◌, ◌%◌, Bool, true, false, not, ◌&&◌, ◌||◌, Option, none, some,
  List, [], ◌∷◌, ◌++◌, map, length, every, any, ltb, leb, ◌==◌, if◌then◌else◌, to_lower, split,
}
use webperf_selfhosted.Report.Csv.{number_text}
use webperf_selfhosted.Domain.Hex.{hex_digit, is_hex_digit, hex_value}

-- `/^\[/` and `/\]$/`
abbrev pub drop_open : List ℕ → List ℕ
drop_open [] = []
drop_open (c ∷ cs) = if c == b'[' then cs else c ∷ cs

unfoldable pub drop_last : ℕ → List ℕ → List ℕ
drop_last c [] = []
drop_last c (d ∷ []) = if d == c then [] else d ∷ []
drop_last c (d ∷ e ∷ es) = d ∷ drop_last c (e ∷ es)

abbrev pub without_brackets : List ℕ → List ℕ
without_brackets hostname = drop_last b']' (drop_open hostname)

-- In the letters of ASCII, which a host name of a URL has.
unfoldable pub normalize_outbound_hostname : List ℕ → List ℕ
unfolding drop_last
normalize_outbound_hostname hostname = map to_lower (drop_last b'.' (without_brackets hostname))

-- What stands before the last colon, with it, and after it.
unfoldable pub split_tail : List ℕ → List ℕ × List ℕ
split_tail [] = ([], [])
split_tail (c ∷ cs) = join c (any (λ d. d == b':') cs) (split_tail cs)
  where
    join : ℕ → Bool → List ℕ × List ℕ → List ℕ × List ℕ
    join c true rest = (c ∷ rest.0, rest.1)
    join c false rest = if c == b':' then (c ∷ [], rest.1) else ([], c ∷ rest.1)

abbrev pub is_digit : ℕ → Bool
is_digit c = leb b'0' c && leb c b'9'

abbrev pub is_number : List ℕ → Bool
is_number part = leb 1 (length part) && every is_digit part

-- `/(?:^|:)(\d+\.\d+\.\d+\.\d+)$/` on what stands after the last colon.
unfoldable pub is_dotted : List ℕ → Bool
unfolding split
is_dotted tail = let parts = split b'.' tail in length parts == 4 && every is_number parts

-- `Number(part)`
unfoldable pub decimal_value : ℕ → List ℕ → ℕ
decimal_value value [] = value
decimal_value value (c ∷ cs) = decimal_value (value * 10 + (c - b'0')) cs

-- `word.toString(16)` of a number below 2 ^ 16.
abbrev pub word_text : ℕ → List ℕ
word_text n =
    if ltb n 16
    then hex_digit n ∷ []
    else if ltb n 256
    then hex_digit (n / 16) ∷ hex_digit (n % 16) ∷ []
    else if ltb n 4096
    then hex_digit (n / 256) ∷ hex_digit (n / 16 % 16) ∷ hex_digit (n % 16) ∷ []
    else hex_digit (n / 4096)
      ∷ hex_digit (n / 256 % 16)
      ∷ hex_digit (n / 16 % 16)
      ∷ hex_digit (n % 16)
      ∷ []

-- Two words of the four octets, which are below 256: `(a << 8) | b` is this sum.
abbrev pub octet_words : List ℕ → List ℕ
octet_words (a ∷ b ∷ c ∷ d ∷ []) = word_text (a * 256 + b) ++ b':' ∷ word_text (c * 256 + d)
octet_words _ = []

-- `normalized.split('::')`; the flag says that a colon waits.
abbrev pub put_unit : ℕ → List (List ℕ) → List (List ℕ)
put_unit c [] = (c ∷ []) ∷ []
put_unit c (part ∷ parts) = (c ∷ part) ∷ parts

unfoldable pub split_pairs : Bool → List ℕ → List (List ℕ)
split_pairs false [] = [] ∷ []
split_pairs true [] = (b':' ∷ []) ∷ []
split_pairs false (c ∷ cs) = elim (c == b':') [
  | true ↦ split_pairs true cs
  | false ↦ put_unit c (split_pairs false cs)
]
split_pairs true (c ∷ cs) = elim (c == b':') [
  | true ↦ [] ∷ split_pairs false cs
  | false ↦ put_unit b':' (put_unit c (split_pairs false cs))
]

-- `half ? half.split(':') : []`
abbrev pub words_of : List ℕ → List (List ℕ)
words_of [] = []
words_of (c ∷ cs) = split b':' (c ∷ cs)

-- `/^[0-9a-f]{1,4}$/`
abbrev pub is_word : List ℕ → Bool
is_word part = leb 1 (length part) && leb (length part) 4 && every is_hex_digit part

-- `Number.parseInt(part, 16)`
unfoldable pub word_value : ℕ → List ℕ → ℕ
word_value value [] = value
word_value value (c ∷ cs) = word_value (value * 16 + hex_value c) cs

abbrev pub values : List (List ℕ) → List ℕ
values = map (word_value 0)

unfoldable pub zeros : ℕ → List ℕ
zeros zero = []
zeros (suc n) = 0 ∷ zeros n

unfoldable pub words_of_halves : List (List ℕ) → Option (List ℕ)
unfolding split zeros word_value
words_of_halves (half ∷ []) =
    let left = words_of half in
    if not (every is_word left) || not (length left == 8) then none else some (values left)
words_of_halves (first ∷ second ∷ []) =
    let left = words_of first in
    let right = words_of second in
    if not (every is_word left) || not (every is_word right) || leb 8 (length left + length right)
    then none
    else some (values left ++ zeros (8 - length left - length right) ++ values right)
words_of_halves _ = none

abbrev pub words_of_text : List ℕ → Option (List ℕ)
words_of_text normalized = words_of_halves (split_pairs false normalized)

-- `is_ip` is net.isIP: 4, 6, or 0.
module _ (is_ip : List ℕ → ℕ) where
  -- A dotted tail that is an address is written as two words.
  unfoldable pub words_of_normalized : List ℕ → Option (List ℕ)
  unfolding split_tail is_dotted split decimal_value words_of_halves split_pairs
  words_of_normalized normalized =
      let parts = split_tail normalized in
      if not (is_dotted parts.1)
      then words_of_text normalized
      else if not (is_ip parts.1 == 4)
      then none
      else words_of_text (parts.0 ++ octet_words (map (decimal_value 0) (split b'.' parts.1)))

  unfoldable pub parse_ipv6_words : List ℕ → Option (List ℕ)
  parse_ipv6_words value = words_of_normalized (normalize_outbound_hostname value)

  -- The text of the four bytes of two words.
  abbrev pub dotted_text : ℕ → ℕ → List ℕ
  dotted_text high low =
      number_text (high / 256)
      ++ b'.' ∷ number_text (high % 256)
      ++ b'.' ∷ number_text (low / 256)
      ++ b'.' ∷ number_text (low % 256)

  -- `words.slice(0, 5).some((word) => word !== 0) || words[5] !== 0xffff`
  abbrev pub mapped_text : List ℕ → Option (List ℕ) → List ℕ
  mapped_text address (some (a ∷ b ∷ c ∷ d ∷ e ∷ f ∷ high ∷ low ∷ [])) =
      if a == 0 && b == 0 && c == 0 && d == 0 && e == 0 && f == 65535
      then dotted_text high low
      else address
  mapped_text address _ = address

  unfoldable pub normalize_mapped_ipv4 : List ℕ → List ℕ
  normalize_mapped_ipv4 address = mapped_text address (parse_ipv6_words address)
