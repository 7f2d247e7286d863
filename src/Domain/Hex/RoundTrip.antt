-- ===== src/Domain/Hex/RoundTrip.antt =====
-- Bytes and their hexadecimal text determine each other.
use webperf_selfhosted.Base.{
  ℕ, ◌+◌, ◌*◌, ◌/◌, ◌%◌, ◌<◌, ◌≡◌, refl, ◌∙◌, ap, Bool, true, false, ◌&&◌, none, some, List, [],
  ◌∷◌, ◌++◌, length, every, ltb, ◌==◌, arith, Bool-cases, ltb→lt, inl, inr,
}
use webperf_selfhosted.Domain.Hex.{
  hex_digit, base_16, pad_start, bytes_to_hex, is_hex_digit, hex_value, parse_pairs, hex_to_bytes,
}

abbrev pub is_byte : ℕ → Bool
is_byte n = ltb n 256

abbrev high_digit : ℕ → ℕ
high_digit n = hex_digit (n / 16)

abbrev low_digit : ℕ → ℕ
low_digit n = hex_digit (n % 16)

digit_div : (n : ℕ) → n < 16 → n / 16 ≡ 0
digit_div n h = omega arith

digit_mod : (n : ℕ) → n < 16 → n % 16 ≡ n
digit_mod n h = omega arith

pad_start-base_16 : (n : ℕ) → pad_start (base_16 n) ≡ high_digit n ∷ low_digit n ∷ []
pad_start-base_16 n = elim (Bool-cases (ltb n 16)) [
  | inl e ↦
      let small = ltb→lt n 16 e in
      let high = digit_div n small in let low = digit_mod n small in rw e (rw high (rw low refl))
  | inr e ↦ rw e refl
]

bytes_to_hex-cons :
    (n : ℕ) (bytes : List ℕ)
    → bytes_to_hex (n ∷ bytes) ≡ high_digit n ∷ low_digit n ∷ bytes_to_hex bytes
unfolding bytes_to_hex
bytes_to_hex-cons n bytes = ap (λ p. p ++ bytes_to_hex bytes) (pad_start-base_16 n)

pub hex_value-hex_digit : (n : ℕ) → n < 16 → hex_value (hex_digit n) ≡ n
hex_value-hex_digit n h = ground (arith, h)

pub is_hex_digit-hex_digit : (n : ℕ) → n < 16 → is_hex_digit (hex_digit n) ≡ true
is_hex_digit-hex_digit n h = ground (arith, h)

hex_digit-hex_value : (c : ℕ) → is_hex_digit c ≡ true → hex_digit (hex_value c) ≡ c
hex_digit-hex_value c h = ground (arith, h)

hex_value-is_hex_digit : (c : ℕ) → is_hex_digit c ≡ true → hex_value c < 16
hex_value-is_hex_digit c h = ground (arith, h)

div_16 : (high low : ℕ) → low < 16 → (high * 16 + low) / 16 ≡ high
div_16 high low h = omega arith

mod_16 : (high low : ℕ) → low < 16 → (high * 16 + low) % 16 ≡ low
mod_16 high low h = omega arith

byte_digits : (n : ℕ) → n / 16 * 16 + n % 16 ≡ n
byte_digits n = omega arith

byte_high : (n : ℕ) → n < 256 → n / 16 < 16
byte_high n h = omega arith

byte_low : (n : ℕ) → n % 16 < 16
byte_low n = omega arith

cons_cong : {x y : ℕ} {xs ys : List ℕ} → x ≡ y → xs ≡ ys → x ∷ xs ≡ y ∷ ys
cons_cong e f = cc

and_true : {a b : Bool} → a ≡ true → b ≡ true → (a && b) ≡ true
and_true e f = rw e f

and_first : (a b : Bool) → (a && b) ≡ true → a ≡ true
and_first a b h = ground (arith, h)

and_second : (a b : Bool) → (a && b) ≡ true → b ≡ true
and_second a b h = ground (arith, h)

-- The two digits of a byte name it.
read_digits : (n : ℕ) → n < 256 → hex_value (high_digit n) * 16 + hex_value (low_digit n) ≡ n
read_digits n h =
    let high = hex_value-hex_digit (n / 16) (byte_high n h) in
    let low = hex_value-hex_digit (n % 16) (byte_low n) in rw high (rw low (byte_digits n))

parse_pairs-bytes_to_hex :
    (bytes : List ℕ) → every is_byte bytes ≡ true → parse_pairs (bytes_to_hex bytes) ≡ bytes
unfolding parse_pairs bytes_to_hex
parse_pairs-bytes_to_hex [] h = refl
parse_pairs-bytes_to_hex (n ∷ bytes) h =
    let rest = parse_pairs-bytes_to_hex bytes (ground (arith, h)) in
    let first = read_digits n (ground (arith, h)) in
    ap parse_pairs (bytes_to_hex-cons n bytes) ∙ cons_cong first rest

pub hex_digits-bytes_to_hex :
    (bytes : List ℕ) → every is_byte bytes ≡ true → every is_hex_digit (bytes_to_hex bytes) ≡ true
unfolding bytes_to_hex
hex_digits-bytes_to_hex [] h = refl
hex_digits-bytes_to_hex (n ∷ bytes) h =
    let is_small = byte_high n (ground (arith, h)) in
    let high = is_hex_digit-hex_digit (n / 16) is_small in
    let low = is_hex_digit-hex_digit (n % 16) (byte_low n) in
    let rest = hex_digits-bytes_to_hex bytes (ground (arith, h)) in
    ap (every is_hex_digit) (bytes_to_hex-cons n bytes) ∙ and_true high (and_true low rest)

pub length-bytes_to_hex : (bytes : List ℕ) → length (bytes_to_hex bytes) ≡ 2 * length bytes
unfolding bytes_to_hex
length-bytes_to_hex [] = refl
length-bytes_to_hex (n ∷ bytes) =
    let rest = length-bytes_to_hex bytes in ap length (bytes_to_hex-cons n bytes) ∙ omega arith

even_length : (bytes : List ℕ) → length (bytes_to_hex bytes) % 2 ≡ 0
even_length bytes = let twice = length-bytes_to_hex bytes in omega arith

-- Bytes, which are numbers below 256, are read back from their text.
pub hex_to_bytes-bytes_to_hex :
    (bytes : List ℕ) → every is_byte bytes ≡ true → hex_to_bytes (bytes_to_hex bytes) ≡ some bytes
unfolding hex_to_bytes
hex_to_bytes-bytes_to_hex bytes h =
    let even : length (bytes_to_hex bytes) % 2 ≡ 0 = even_length bytes in
    rw even (rw (hex_digits-bytes_to_hex bytes h) (ap some (parse_pairs-bytes_to_hex bytes h)))

written_high :
    (c d : ℕ)
    → is_hex_digit c ≡ true
    → is_hex_digit d ≡ true
    → high_digit (hex_value c * 16 + hex_value d) ≡ c
written_high c d h k =
    ap hex_digit (div_16 (hex_value c) (hex_value d) (hex_value-is_hex_digit d k))
    ∙ hex_digit-hex_value c h

written_low : (c d : ℕ) → is_hex_digit d ≡ true → low_digit (hex_value c * 16 + hex_value d) ≡ d
written_low c d k =
    ap hex_digit (mod_16 (hex_value c) (hex_value d) (hex_value-is_hex_digit d k))
    ∙ hex_digit-hex_value d k

bytes_to_hex-parse_pairs :
    (text : List ℕ)
    → length text % 2 ≡ 0
    → every is_hex_digit text ≡ true
    → bytes_to_hex (parse_pairs text) ≡ text
unfolding parse_pairs bytes_to_hex
bytes_to_hex-parse_pairs [] e h = refl
bytes_to_hex-parse_pairs (c ∷ []) e h = absurd (omega arith)
bytes_to_hex-parse_pairs (c ∷ d ∷ cs) e h =
    let first = and_first (is_hex_digit c) (every is_hex_digit (d ∷ cs)) h in
    let others = and_second (is_hex_digit c) (every is_hex_digit (d ∷ cs)) h in
    let second = and_first (is_hex_digit d) (every is_hex_digit cs) others in
    let left = and_second (is_hex_digit d) (every is_hex_digit cs) others in
    let rest = bytes_to_hex-parse_pairs cs (omega arith) left in
    bytes_to_hex-cons (hex_value c * 16 + hex_value d) (parse_pairs cs)
    ∙ cons_cong (written_high c d first second) (cons_cong (written_low c d second) rest)

hex_to_bytes-read :
    (text : List ℕ)
    → (length text % 2 == 0) ≡ true
    → every is_hex_digit text ≡ true
    → hex_to_bytes text ≡ some (parse_pairs text)
unfolding hex_to_bytes
hex_to_bytes-read text e h = rw e (rw h refl)

hex_to_bytes-odd : (text : List ℕ) → (length text % 2 == 0) ≡ false → hex_to_bytes text ≡ none
unfolding hex_to_bytes
hex_to_bytes-odd text e = rw e refl

hex_to_bytes-wrong : (text : List ℕ) → every is_hex_digit text ≡ false → hex_to_bytes text ≡ none
unfolding hex_to_bytes
hex_to_bytes-wrong text e = ground (arith, e)

-- A text that is read is what the bytes are written as: no two texts name the same bytes.
pub bytes_to_hex-hex_to_bytes :
    (text bytes : List ℕ) → hex_to_bytes text ≡ some bytes → bytes_to_hex bytes ≡ text
bytes_to_hex-hex_to_bytes text bytes h = elim (Bool-cases (length text % 2 == 0)) [
  | inl e ↦ elim (Bool-cases (every is_hex_digit text)) [
    | inl k ↦
        let read = hex_to_bytes-read text e k in
        let same : bytes ≡ parse_pairs text = cc in
        ap bytes_to_hex same ∙ bytes_to_hex-parse_pairs text (ground (arith, e)) k
    | inr k ↦ let wrong = hex_to_bytes-wrong text k in absurd (cc)
  ]
  | inr e ↦ let odd = hex_to_bytes-odd text e in absurd (cc)
]
