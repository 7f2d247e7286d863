-- ===== src/Outbound/Mapped.antt =====
-- An IPv4 address written as an IPv6 address, as the parser of URLs writes it, is judged as the IPv4
-- address.
use webperf_selfhosted.Base.{
  ℕ, ◌<◌, ◌≡◌, refl, sym, ap, ◌∙◌, true, false, ◌&&◌, some, List, [], ◌∷◌, ◌++◌, map, every, ◌==◌,
  codes, split, to_lower, arith,
}
use webperf_selfhosted.Outbound.Words.{
  drop_last, normalize_outbound_hostname, split_tail, is_dotted, word_text, split_pairs, is_word,
  word_value, zeros, words_of_halves, words_of_text, words_of_normalized, parse_ipv6_words,
  dotted_text, normalize_mapped_ipv4,
}
use webperf_selfhosted.Outbound.Spelling.{
  avoids, is_filled, is_hex-avoids, map-to_lower, drop_last-avoids, drop_last-append, split-avoids,
  split-separator, split_tail-append, stands_alone, split_pairs-stands_alone, stands_alone-avoids,
  IsWordText, is_word-IsWordText, word_text-IsWordText,
}
use webperf_selfhosted.Outbound.Policy.{
  Net, OutboundAddressPolicy, is_address, passes, assert_address_policy,
}

abbrev prefix : List ℕ
prefix = codes "ffff"

-- The words after the two colons: ffff, and the two words of the address.
abbrev last_words : List ℕ → List ℕ → List ℕ
last_words high low = prefix ++ b':' ∷ high ++ b':' ∷ low

-- `::ffff:` and the two words of an IPv4 address.
abbrev pub mapped_address : ℕ → ℕ → List ℕ
mapped_address high low = b':' ∷ b':' ∷ last_words (word_text high) (word_text low)

abbrev before_low : List ℕ → List ℕ
before_low high = b':' ∷ b':' ∷ prefix ++ b':' ∷ high ++ b':' ∷ []

abbrev tail_of : List ℕ → List ℕ
tail_of [] = []
tail_of (c ∷ cs) = cs

every_word :
    (high low : List ℕ)
    → is_word high ≡ true
    → is_word low ≡ true
    → every is_word (prefix ∷ high ∷ low ∷ []) ≡ true
every_word high low h k = rw (h, k) refl

-- Two colons and three words after them: five words of zero before.
three_words :
    (c : ℕ) (cs a high low : List ℕ)
    → split b':' (c ∷ cs) ≡ a ∷ high ∷ low ∷ []
    → every is_word (a ∷ high ∷ low ∷ []) ≡ true
    → words_of_halves ([] ∷ (c ∷ cs) ∷ [])
      ≡ some (0 ∷ 0 ∷ 0 ∷ 0 ∷ 0 ∷ word_value 0 a ∷ word_value 0 high ∷ word_value 0 low ∷ [])
unfolding words_of_halves zeros
three_words c cs a high low e w = rw (e, w, words_of_halves) refl

rest_alone : (s : List ℕ) → avoids b':' s ≡ true → stands_alone false s ≡ true
unfolding stands_alone
rest_alone [] h = refl
rest_alone (c ∷ s) h = let rest = rest_alone s (ground (arith, h)) in ground (arith, h, rest)

ends_alone : (s : List ℕ) → is_filled s ≡ true → avoids b':' s ≡ true → stands_alone true s ≡ true
unfolding stands_alone
ends_alone [] f h = absurd (cc)
ends_alone (c ∷ []) f h = ground (arith, h)
ends_alone (c ∷ d ∷ s) f h =
    let own : (c == b':') ≡ false = ground (arith, h) in
    rw own (rest_alone (d ∷ s) (ground (arith, h)))

module _ (h l : ℕ) (high low : List ℕ) (hw : IsWordText h high) (lw : IsWordText l low) where
  append_word : (p s : List ℕ) → p ++ (b':' ∷ s) ≡ (p ++ b':' ∷ []) ++ s
  append_word [] s = refl
  append_word (c ∷ p) s = ap (λ r. c ∷ r) (append_word p s)

  split_at_low : b':' ∷ b':' ∷ last_words high low ≡ before_low high ++ low
  split_at_low = ap (λ r. b':' ∷ b':' ∷ prefix ++ b':' ∷ r) (append_word high low)

  keeps_end :
      (c : ℕ) → avoids c low ≡ true → drop_last c (before_low high ++ low) ≡ before_low high ++ low
  keeps_end c a =
      drop_last-append c (before_low high) low lw.filled
      ∙ ap (λ r. before_low high ++ r) (drop_last-avoids c low a)

  lower_append : (p s : List ℕ) → map to_lower (p ++ s) ≡ map to_lower p ++ map to_lower s
  lower_append [] s = refl
  lower_append (c ∷ p) s = ap (λ r. to_lower c ∷ r) (lower_append p s)

  lowered : map to_lower (b':' ∷ b':' ∷ last_words high low) ≡ b':' ∷ b':' ∷ last_words high low
  lowered =
      ap (λ r. b':' ∷ b':' ∷ prefix ++ b':' ∷ r)
        (lower_append high (b':' ∷ low)
          ∙ rw (map-to_lower high hw.hex, map-to_lower low lw.hex) refl)

  normalized :
      normalize_outbound_hostname (b':' ∷ b':' ∷ last_words high low)
      ≡ b':' ∷ b':' ∷ last_words high low
  unfolding normalize_outbound_hostname
  normalized =
      let no_bracket = is_hex-avoids b']' low refl lw.hex in
      let no_dot = is_hex-avoids b'.' low refl lw.hex in
      ap (λ t. map to_lower (drop_last b'.' (drop_last b']' t))) split_at_low
      ∙ ap (λ t. map to_lower (drop_last b'.' t)) (keeps_end b']' no_bracket)
      ∙ ap (map to_lower) (keeps_end b'.' no_dot)
      ∙ ap (map to_lower) (sym split_at_low)
      ∙ lowered

  not_dotted : is_dotted low ≡ false
  unfolding is_dotted
  not_dotted = rw (split-avoids b'.' low (is_hex-avoids b'.' low refl lw.hex)) refl

  tail : (split_tail (b':' ∷ b':' ∷ last_words high low)).1 ≡ low
  tail =
      split_tail-append (b':' ∷ b':' ∷ prefix ++ b':' ∷ high) low
        (is_hex-avoids b':' low refl lw.hex)

  low_alone : stands_alone true low ≡ true
  low_alone = ends_alone low lw.filled (is_hex-avoids b':' low refl lw.hex)

  alone : stands_alone false (last_words high low) ≡ true
  unfolding stands_alone
  alone =
      stands_alone-avoids true high (b':' ∷ low) hw.filled (is_hex-avoids b':' high refl hw.hex)
      ∙ low_alone

  halves : split_pairs false (b':' ∷ b':' ∷ last_words high low) ≡ [] ∷ last_words high low ∷ []
  unfolding split_pairs
  halves = ap (λ parts. [] ∷ parts) (split_pairs-stands_alone (last_words high low) alone)

  parts : split b':' (last_words high low) ≡ prefix ∷ high ∷ low ∷ []
  parts =
      split-separator b':' prefix (high ++ b':' ∷ low) refl
      ∙ ap (λ r. prefix ∷ r)
          (split-separator b':' high low (is_hex-avoids b':' high refl hw.hex)
            ∙ ap (λ r. high ∷ r) (split-avoids b':' low (is_hex-avoids b':' low refl lw.hex)))

  words :
      words_of_text (b':' ∷ b':' ∷ last_words high low)
      ≡ some (0 ∷ 0 ∷ 0 ∷ 0 ∷ 0 ∷ 65535 ∷ h ∷ l ∷ [])
  unfolding word_value
  words =
      let all = every_word high low (is_word-IsWordText h high hw) (is_word-IsWordText l low lw) in
      ap words_of_halves halves
      ∙ three_words b'f' (tail_of (last_words high low)) prefix high low parts all
      ∙ rw (hw.value, lw.value) refl

  parsed :
      (is_ip : List ℕ → ℕ)
      → parse_ipv6_words is_ip (b':' ∷ b':' ∷ last_words high low)
        ≡ some (0 ∷ 0 ∷ 0 ∷ 0 ∷ 0 ∷ 65535 ∷ h ∷ l ∷ [])
  unfolding parse_ipv6_words words_of_normalized
  parsed is_ip =
      ap (words_of_normalized is_ip) normalized ∙ rw (ap is_dotted tail ∙ not_dotted) words

-- The mapped address of any two words below 2 ^ 16 passes exactly if the IPv4 address of their four
-- bytes is an address and passes.
pub assert_address_policy-mapped :
    (net : Net) (policy : OutboundAddressPolicy) (high low : ℕ)
    → high < 65536
    → low < 65536
    → assert_address_policy net (mapped_address high low) policy ≡ (
        is_address net (dotted_text net.is_ip high low)
        && passes net policy (dotted_text net.is_ip high low))
unfolding assert_address_policy normalize_mapped_ipv4
assert_address_policy-mapped net policy high low h l =
    rw
      (parsed high low (word_text high) (word_text low) (word_text-IsWordText high h)
        (word_text-IsWordText low l) net.is_ip)
      (ground arith)
