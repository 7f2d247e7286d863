-- ===== src/Domain/Url/Literals.antt =====
-- IPv6 literals: `URL.hostname` has them in brackets.
use webperf_selfhosted.Base.{
  ap, Bool-cases, inl, inr, ℕ, ◌≡◌, String, true, false, not, ◌&&◌, ◌||◌, Option, some, List, [],
  ◌∷◌, ◌++◌, ◌==◌, any, arith, split, refl, ◌∙◌, ◌=ₛ◌, codes, same_text, starts_with, ends_with,
  to_lower,
}
use webperf_selfhosted.Domain.Url.{
  is_ipv4_private, is_ipv6_private, is_forbidden_hostname, is_forbidden_ip_literal, lowered, Url,
  accepted, validate_measurement_url,
}

abbrev pub bracketed : List ℕ → List ℕ
bracketed s = b'[' ∷ s ++ b']' ∷ []

-- The last unit of a text, or `d`.
abbrev last_or : ℕ → List ℕ → ℕ
last_or d [] = d
last_or d (c ∷ cs) = last_or c cs

last_or-append : (d x : ℕ) (s : List ℕ) → last_or d (s ++ x ∷ []) ≡ x
last_or-append d x [] = refl
last_or-append d x (c ∷ cs) = last_or-append c x cs

last_or-same_text : (d : ℕ) (s t : List ℕ) → same_text s t ≡ true → last_or d s ≡ last_or d t
unfolding same_text
last_or-same_text d [] [] h = refl
last_or-same_text d [] (c ∷ cs) h = absurd (cc)
last_or-same_text d (c ∷ cs) [] h = absurd (cc)
last_or-same_text d (b ∷ bs) (c ∷ cs) h = ground (arith, last_or-same_text b bs cs)

last_or-ends_with :
    (d e : ℕ) (es s : List ℕ) → ends_with (e ∷ es) s ≡ true → last_or e es ≡ last_or d s
unfolding ends_with same_text
last_or-ends_with d e es [] h = absurd (cc)
last_or-ends_with d e es (c ∷ cs) h =
    ground (arith, h, last_or-same_text d (e ∷ es) (c ∷ cs), last_or-ends_with c e es cs)

lowered-bracket : (s : List ℕ) → lowered (s ++ b']' ∷ []) ≡ lowered s ++ b']' ∷ []
lowered-bracket [] = refl
lowered-bracket (c ∷ cs) = ap (λ xs. to_lower c ∷ xs) (lowered-bracket cs)

-- A bracketed text does not end with a text that ends otherwise.
ends_with-bracketed :
    (e : ℕ) (es s : List ℕ)
    → (last_or e es == b']') ≡ false
    → ends_with (e ∷ es) (bracketed s) ≡ false
ends_with-bracketed e es s h = elim (Bool-cases (ends_with (e ∷ es) (bracketed s))) [
  | inr k ↦ k
  | inl k ↦
      let same = last_or-ends_with 0 e es (bracketed s) k in
      let last = last_or-append b'[' b']' s in absurd (ground (arith, h, same, last))
]

is_forbidden_hostname-bracketed : (s : List ℕ) → is_forbidden_hostname (bracketed s) ≡ false
unfolding is_forbidden_hostname same_text
is_forbidden_hostname-bracketed s = ground (
  arith,
  ends_with-bracketed b'.' (codes "localhost") s refl,
  ends_with-bracketed b'.' (codes "local") s refl,
  ends_with-bracketed b'.' (codes "internal") s refl,
)

is_ipv6_private-bracketed : (s : List ℕ) → is_ipv6_private (bracketed s) ≡ false
unfolding is_ipv6_private same_text starts_with
is_ipv6_private-bracketed s = ground arith

-- A text without the separator is one part.
split-one :
    (separator : ℕ) (s : List ℕ)
    → any (λ c. c == separator) s ≡ false
    → (part : List ℕ) × (split separator s ≡ part ∷ [])
unfolding split
split-one separator [] h = ([], refl)
split-one separator (c ∷ cs) h =
    let (part, e) = split-one separator cs (ground (arith, h)) in (c ∷ part, ground (arith, h, e))

any-lowered :
    (t : List ℕ)
    → any (λ c. c == b'.') t ≡ false
    → any (λ c. c == b'.') (lowered (t ++ b']' ∷ [])) ≡ false
any-lowered [] k = refl
any-lowered (c ∷ cs) k = ground (arith, k, any-lowered cs)

is_ipv4_private-bracketed :
    (number : List ℕ → Option ℕ) (s : List ℕ)
    → any (λ c. c == b'.') s ≡ false
    → is_ipv4_private number (lowered (bracketed s)) ≡ false
unfolding is_ipv4_private
is_ipv4_private-bracketed number s h =
    let (part, e) = split-one b'.' (lowered (bracketed s)) (any-lowered s h) in rw e refl

lowered-bracketed : (s : List ℕ) → lowered (bracketed s) ≡ bracketed (lowered s)
lowered-bracketed s = ap (λ xs. b'[' ∷ xs) (lowered-bracket s)

is_forbidden_ip_literal-bracketed :
    (number : List ℕ → Option ℕ) (s : List ℕ)
    → any (λ c. c == b'.') s ≡ false
    → is_forbidden_ip_literal number (lowered (bracketed s)) ≡ false
unfolding is_forbidden_ip_literal
is_forbidden_ip_literal-bracketed number s dots =
    let v4 = is_ipv4_private-bracketed number s dots in
    let v6 = ap is_ipv6_private (lowered-bracketed s) ∙ is_ipv6_private-bracketed (lowered s) in
    ground (arith, v4, v6)

-- Every URL with the scheme http, no credentials and no port whose host is an IPv6 literal, as the
-- parser of URLs writes it (in brackets, without dots), is accepted, so also that of a
-- loopback, link-local or private address.
pub validate_measurement_url-bracketed :
    (number : List ℕ → Option ℕ) (parse_url : String → Option Url) (value : String) (url : Url)
    (s : List ℕ)
    → parse_url value ≡ some url
    → url.protocol ≡ "http:"
    → url.username ≡ ""
    → url.password ≡ ""
    → url.port ≡ ""
    → url.hostname ≡ bracketed s
    → any (λ c. c == b'.') s ≡ false
    → validate_measurement_url number parse_url value ≡ accepted url
unfolding validate_measurement_url
validate_measurement_url-bracketed number parse_url value url s found protocol user pass port host
      dots =
    let scheme : not (url.protocol =ₛ "http:" || url.protocol =ₛ "https:") ≡ false =
      rw protocol refl in
    let credentials : (not (url.username =ₛ "") || not (url.password =ₛ "")) ≡ false =
      rw (user, pass) refl in
    let ports : (not (url.port =ₛ "") && not (url.port =ₛ "80" || url.port =ₛ "443")) ≡ false =
      rw port refl in
    let lower = ap lowered host ∙ lowered-bracketed s in
    let name : is_forbidden_hostname (lowered url.hostname) ≡ false =
      rw lower (is_forbidden_hostname-bracketed (lowered s)) in
    let literal : is_forbidden_ip_literal number (lowered url.hostname) ≡ false =
      ap (λ x. is_forbidden_ip_literal number (lowered x)) host
      ∙ is_forbidden_ip_literal-bracketed number s dots in
    rw (found, scheme, credentials, ports, name, literal) refl
