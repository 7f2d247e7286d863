-- ===== src/Domain/Hex.antt =====
-- bytesToHex, hexToBytes and the keyed hashes of packages/domain-core/src/index.ts. Texts are lists
-- of UTF-16 units, bytes numbers below 256.
pub mod RoundTrip
pub mod Signature
use webperf_selfhosted.Base.{
  ℕ, ◌+◌, ◌-◌, ◌*◌, ◌/◌, ◌%◌, Bool, true, false, not, ◌&&◌, ◌||◌, Option, none, some, List, [], ◌∷◌,
  ◌++◌, length, every, ltb, leb, ◌==◌, if◌then◌else◌,
}

abbrev pub hex_digit : ℕ → ℕ
hex_digit n = if ltb n 10 then b'0' + n else b'a' + (n - 10)

-- `byte.toString(16)`
abbrev pub base_16 : ℕ → List ℕ
base_16 byte =
    if ltb byte 16 then hex_digit byte ∷ [] else hex_digit (byte / 16) ∷ hex_digit (byte % 16) ∷ []

-- `padStart(2, '0')`
abbrev pub pad_start : List ℕ → List ℕ
pad_start [] = b'0' ∷ b'0' ∷ []
pad_start (c ∷ []) = b'0' ∷ c ∷ []
pad_start (c ∷ d ∷ cs) = c ∷ d ∷ cs

unfoldable pub bytes_to_hex : List ℕ → List ℕ
bytes_to_hex [] = []
bytes_to_hex (byte ∷ bytes) = pad_start (base_16 byte) ++ bytes_to_hex bytes

-- `[a-f0-9]`
abbrev pub is_hex_digit : ℕ → Bool
is_hex_digit c = (leb b'a' c && leb c b'f') || (leb b'0' c && leb c b'9')

-- `Number.parseInt(c, 16)` of such a digit.
abbrev pub hex_value : ℕ → ℕ
hex_value c = if leb c b'9' then c - b'0' else c - b'a' + 10

-- The bytes of the complete pairs.
unfoldable pub parse_pairs : List ℕ → List ℕ
parse_pairs [] = []
parse_pairs (c ∷ []) = []
parse_pairs (c ∷ d ∷ cs) = (hex_value c * 16 + hex_value d) ∷ parse_pairs cs

-- `none` is the thrown error.
unfoldable pub hex_to_bytes : List ℕ → Option (List ℕ)
unfolding parse_pairs
hex_to_bytes value =
    if not (length value % 2 == 0) || not (every is_hex_digit value)
    then none
    else some (parse_pairs value)

abbrev pub hex_or : Option (List ℕ) → Option (List ℕ)
hex_or none = none
hex_or (some signature) = some (bytes_to_hex signature)

-- `sign` is crypto.subtle.sign on a key that is imported from the secret, with both texts encoded;
-- `none` is a rejected promise.
unfoldable pub create_hmac_sha256 :
    (List ℕ → List ℕ → Option (List ℕ)) → List ℕ → List ℕ → Option (List ℕ)
unfolding bytes_to_hex
create_hmac_sha256 sign shared_secret payload = hex_or (sign shared_secret payload)

-- The `catch` that answers false.
abbrev pub or_false : Option Bool → Bool
or_false none = false
or_false (some b) = b

-- `verify` is crypto.subtle.verify with such a key, on the bytes of a signature and a text.
module _ (verify : List ℕ → List ℕ → List ℕ → Option Bool) where
  abbrev pub verify_bytes : List ℕ → List ℕ → Option (List ℕ) → Bool
  verify_bytes shared_secret payload none = false
  verify_bytes shared_secret payload (some bytes) = or_false (verify shared_secret bytes payload)

  unfoldable pub verify_hmac_sha256 : List ℕ → List ℕ → List ℕ → Bool
  verify_hmac_sha256 shared_secret payload signature =
      if not (length signature == 64 && every is_hex_digit signature)
      then false
      else verify_bytes shared_secret payload (hex_to_bytes signature)
