-- ===== src/Outbound/Spelling.antt =====
-- Texts of hexadecimal words between colons, as the functions on addresses read them.
use webperf_selfhosted.Base.{
  ℕ, suc, ◌+◌, ◌*◌, ◌/◌, ◌%◌, ◌<◌, ◌≡◌, refl, sym, ap, ◌∙◌, Bool, true, false, not, ◌&&◌, List, [],
  ◌∷◌, ◌++◌, map, length, every, any, ltb, leb, ◌==◌, if◌then◌else◌, to_lower, split, arith,
  Bool-cases, inl, inr, ltb→lt,
}
use webperf_selfhosted.Domain.Hex.{hex_digit, is_hex_digit, hex_value}
use webperf_selfhosted.Domain.Hex.RoundTrip.{hex_value-hex_digit, is_hex_digit-hex_digit}
use webperf_selfhosted.Outbound.Words.{
  drop_last, split_tail, word_text, split_pairs, put_unit, is_word, word_value,
}

abbrev pub is_hex : List ℕ → Bool
is_hex = every is_hex_digit

-- No unit of the text is the separator.
abbrev pub avoids : ℕ → List ℕ → Bool
avoids c = every (λ d. not (d == c))

abbrev pub is_filled : List ℕ → Bool
is_filled [] = false
is_filled (c ∷ cs) = true

pub is_hex-avoids :
    (c : ℕ) (s : List ℕ) → is_hex_digit c ≡ false → is_hex s ≡ true → avoids c s ≡ true
is_hex-avoids c [] h k = refl
is_hex-avoids c (d ∷ s) h k =
    let rest = is_hex-avoids c s h (ground (arith, k)) in ground (arith, h, k, rest)

pub map-to_lower : (s : List ℕ) → is_hex s ≡ true → map to_lower s ≡ s
map-to_lower [] h = refl
map-to_lower (c ∷ s) h =
    let rest = map-to_lower s (ground (arith, h)) in
    let own : to_lower c ≡ c = ground (arith, h) in cc

pub drop_last-avoids : (c : ℕ) (s : List ℕ) → avoids c s ≡ true → drop_last c s ≡ s
unfolding drop_last
drop_last-avoids c [] h = refl
drop_last-avoids c (d ∷ []) h = ground (arith, h)
drop_last-avoids c (d ∷ e ∷ s) h = ap (λ r. d ∷ r) (drop_last-avoids c (e ∷ s) (ground (arith, h)))

pub drop_last-append :
    (c : ℕ) (p s : List ℕ) → is_filled s ≡ true → drop_last c (p ++ s) ≡ p ++ drop_last c s
unfolding drop_last
drop_last-append c [] s h = refl
drop_last-append c (d ∷ []) [] h = absurd (cc)
drop_last-append c (d ∷ []) (e ∷ s) h = refl
drop_last-append c (d ∷ e ∷ p) s h = ap (λ r. d ∷ r) (drop_last-append c (e ∷ p) s h)

pub split-avoids : (c : ℕ) (s : List ℕ) → avoids c s ≡ true → split c s ≡ s ∷ []
unfolding split
split-avoids c [] h = refl
split-avoids c (d ∷ s) h =
    let rest = split-avoids c s (ground (arith, h)) in
    let own : (d == c) ≡ false = ground (arith, h) in rw (rest, own) refl

pub split-separator :
    (c : ℕ) (s r : List ℕ) → avoids c s ≡ true → split c (s ++ c ∷ r) ≡ s ∷ split c r
unfolding split
split-separator c [] r h = ground arith
split-separator c (d ∷ s) r h =
    let rest = split-separator c s r (ground (arith, h)) in
    let own : (d == c) ≡ false = ground (arith, h) in rw (rest, own) refl

any-colon : (p r : List ℕ) → any (λ d. d == b':') (p ++ b':' ∷ r) ≡ true
any-colon [] r = refl
any-colon (c ∷ p) r = ground (arith, any-colon p r)

no_colon : (s : List ℕ) → avoids b':' s ≡ true → any (λ d. d == b':') s ≡ false
no_colon [] h = refl
no_colon (c ∷ s) h = let rest = no_colon s (ground (arith, h)) in ground (arith, h, rest)

split_tail-avoids : (s : List ℕ) → avoids b':' s ≡ true → split_tail s ≡ ([], s)
unfolding split_tail
split_tail-avoids [] h = refl
split_tail-avoids (c ∷ s) h =
    let rest = split_tail-avoids s (ground (arith, h)) in
    let own : (c == b':') ≡ false = ground (arith, h) in
    let none_later = no_colon s (ground (arith, h)) in rw (none_later, own, rest) refl

pub split_tail-append : (p s : List ℕ) → avoids b':' s ≡ true → (split_tail (p ++ b':' ∷ s)).1 ≡ s
unfolding split_tail
split_tail-append [] s h = rw (no_colon s h, split_tail-avoids s h) refl
split_tail-append (c ∷ p) s h = rw (any-colon p s) (split_tail-append p s h)

-- The colons stand alone and none is at the end; the flag says that a colon stands before.
unfoldable pub stands_alone : Bool → List ℕ → Bool
stands_alone before [] = not before
stands_alone before (c ∷ cs) =
    if c == b':' then not before && stands_alone true cs else stands_alone false cs

abbrev with_colon : Bool → List ℕ → List ℕ
with_colon false u = u
with_colon true u = b':' ∷ u

split_pairs-one_part :
    (before : Bool) (u : List ℕ)
    → stands_alone before u ≡ true
    → split_pairs before u ≡ with_colon before u ∷ []
unfolding split_pairs stands_alone
split_pairs-one_part false [] h = refl
split_pairs-one_part true [] h = absurd (cc)
split_pairs-one_part false (c ∷ u) h = elim (Bool-cases (c == b':')) [
  | inl t ↦
      let colon : c ≡ b':' = ground (arith, t) in
      let later : stands_alone true u ≡ true = ground (arith, t, h) in
      rw (t, split_pairs) (split_pairs-one_part true u later ∙ ap (λ d. (d ∷ u) ∷ []) (sym colon))
  | inr t ↦
      let later : stands_alone false u ≡ true = ground (arith, t, h) in
      rw (t, split_pairs) (ap (put_unit c) (split_pairs-one_part false u later))
]
split_pairs-one_part true (c ∷ u) h = elim (Bool-cases (c == b':')) [
  | inl t ↦ absurd (ground (arith, t, h))
  | inr t ↦
      let later : stands_alone false u ≡ true = ground (arith, t, h) in
      rw (t, split_pairs)
        (ap (λ r. put_unit b':' (put_unit c r)) (split_pairs-one_part false u later))
]

pub split_pairs-stands_alone :
    (u : List ℕ) → stands_alone false u ≡ true → split_pairs false u ≡ u ∷ []
split_pairs-stands_alone u h = split_pairs-one_part false u h

pub stands_alone-avoids :
    (before : Bool) (s r : List ℕ)
    → is_filled s ≡ true
    → avoids b':' s ≡ true
    → stands_alone before (s ++ r) ≡ stands_alone false r
unfolding stands_alone
stands_alone-avoids before [] r f h = absurd (cc)
stands_alone-avoids before (c ∷ []) r f h = ground (arith, h)
stands_alone-avoids before (c ∷ d ∷ s) r f h =
    let rest = stands_alone-avoids false (d ∷ s) r refl (ground (arith, h)) in
    let own : (c == b':') ≡ false = ground (arith, h) in rw own rest

-- What is known of the text of a word.
pub record IsWordText (n : ℕ) (s : List ℕ) : Type 0 where
  pub filled : is_filled s ≡ true
  pub short : leb (length s) 4 ≡ true
  pub hex : is_hex s ≡ true
  pub value : word_value 0 s ≡ n

length-append : (s : List ℕ) (c : ℕ) → length (s ++ c ∷ []) ≡ suc (length s)
length-append [] c = refl
length-append (d ∷ s) c = ap suc (length-append s c)

is_filled-append : (s : List ℕ) (c : ℕ) → is_filled (s ++ c ∷ []) ≡ true
is_filled-append [] c = refl
is_filled-append (d ∷ s) c = refl

is_hex-append :
    (s : List ℕ) (c : ℕ) → is_hex s ≡ true → is_hex_digit c ≡ true → is_hex (s ++ c ∷ []) ≡ true
is_hex-append [] c h k = rw k refl
is_hex-append (d ∷ s) c h k =
    let rest = is_hex-append s c (ground (arith, h)) k in
    let own : is_hex_digit d ≡ true = ground (arith, h) in rw (own, rest) refl

word_value-append :
    (v : ℕ) (s : List ℕ) (c : ℕ) → word_value v (s ++ c ∷ []) ≡ word_value v s * 16 + hex_value c
unfolding word_value
word_value-append v [] c = refl
word_value-append v (d ∷ s) c = word_value-append (v * 16 + hex_value d) s c

pub is_word-IsWordText : (n : ℕ) (s : List ℕ) → IsWordText n s → is_word s ≡ true
is_word-IsWordText n [] w = let no = w.filled in absurd (cc)
is_word-IsWordText n (c ∷ s) w = rw (w.short, w.hex) (ground arith)

one_digit : (n : ℕ) → n < 16 → IsWordText n (hex_digit n ∷ [])
unfolding word_value
one_digit n h = record {
  filled = refl;
  short = refl;
  hex = rw (is_hex_digit-hex_digit n h) refl;
  value = omega arith ∙ hex_value-hex_digit n h;
}

more_digits :
    (m n d : ℕ) (s : List ℕ)
    → IsWordText n s
    → d < 16
    → leb (length s) 3 ≡ true
    → n * 16 + d ≡ m
    → IsWordText m (s ++ hex_digit d ∷ [])
more_digits m n d s w h k e = record {
  filled = is_filled-append s (hex_digit d);
  short = rw (length-append s (hex_digit d)) (ground (arith, k));
  hex = is_hex-append s (hex_digit d) w.hex (is_hex_digit-hex_digit d h);
  value = word_value-append 0 s (hex_digit d) ∙ rw (w.value, hex_value-hex_digit d h) e;
}

two_digits : (n : ℕ) → n < 256 → IsWordText n (hex_digit (n / 16) ∷ hex_digit (n % 16) ∷ [])
two_digits n h =
    more_digits n (n / 16) (n % 16) (hex_digit (n / 16) ∷ []) (one_digit (n / 16) (omega arith))
      (omega arith) refl (omega arith)

three_digits :
    (n : ℕ)
    → n < 4096
    → IsWordText n (hex_digit (n / 256) ∷ hex_digit (n / 16 % 16) ∷ hex_digit (n % 16) ∷ [])
three_digits n h =
    more_digits n (n / 16) (n % 16) (hex_digit (n / 256) ∷ hex_digit (n / 16 % 16) ∷ [])
      (more_digits (n / 16) (n / 256) (n / 16 % 16) (hex_digit (n / 256) ∷ [])
        (one_digit (n / 256) (omega arith)) (omega arith) refl (omega arith))
      (omega arith) refl (omega arith)

four_digits :
    (n : ℕ)
    → n < 65536
    → IsWordText n (
        hex_digit (n / 4096)
        ∷ hex_digit (n / 256 % 16)
        ∷ hex_digit (n / 16 % 16)
        ∷ hex_digit (n % 16)
        ∷ [])
four_digits n h =
    more_digits n (n / 16) (n % 16)
      (hex_digit (n / 4096) ∷ hex_digit (n / 256 % 16) ∷ hex_digit (n / 16 % 16) ∷ [])
      (more_digits (n / 16) (n / 256) (n / 16 % 16)
        (hex_digit (n / 4096) ∷ hex_digit (n / 256 % 16) ∷ [])
        (more_digits (n / 256) (n / 4096) (n / 256 % 16) (hex_digit (n / 4096) ∷ [])
          (one_digit (n / 4096) (omega arith)) (omega arith) refl (omega arith))
        (omega arith) refl (omega arith))
      (omega arith) refl (omega arith)

pub word_text-IsWordText : (n : ℕ) → n < 65536 → IsWordText n (word_text n)
word_text-IsWordText n h = elim (Bool-cases (ltb n 16)) [
  | inl t ↦ rw t (one_digit n (ltb→lt n 16 t))
  | inr t ↦ elim (Bool-cases (ltb n 256)) [
    | inl u ↦ rw (t, u) (two_digits n (ltb→lt n 256 u))
    | inr u ↦ elim (Bool-cases (ltb n 4096)) [
      | inl v ↦ rw (t, u, v) (three_digits n (ltb→lt n 4096 v))
      | inr v ↦ rw (t, u, v) (four_digits n h)
    ]
  ]
]
