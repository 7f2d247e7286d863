-- ===== src/Redaction/Names.antt =====
-- apps/api/src/redaction.ts: which names of headers and properties are sensitive. A name is the list of
-- its units; the letters are those of ASCII.
use webperf_selfhosted.Base.{
  ℕ, Bool, true, false, not, ◌&&◌, ◌||◌, Option, none, some, List, [], ◌∷◌, map, filter, any, leb,
  ◌==◌, if◌then◌else◌, codes, is_upper, to_lower, same_text, ends_with, split,
}

-- The texts of a `Set`.
abbrev pub holds : List ℕ → List (List ℕ) → Bool
holds name names = any (same_text name) names

-- The white space of ASCII.
abbrev pub is_space : ℕ → Bool
is_space c = c == 32 || (leb 9 c && leb c 13)

unfoldable pub drop_spaces : List ℕ → List ℕ
drop_spaces [] = []
drop_spaces (c ∷ cs) = let rest = drop_spaces cs in if is_space c then rest else c ∷ cs

-- The text less the white space at its end.
unfoldable pub cut_spaces : List ℕ → List ℕ
cut_spaces [] = []
cut_spaces (c ∷ cs) = keep c (cut_spaces cs)
  where
    keep : ℕ → List ℕ → List ℕ
    keep c [] = if is_space c then [] else c ∷ []
    keep c (d ∷ ds) = c ∷ d ∷ ds

-- `name.trim().toLowerCase()`
unfoldable pub normalized : List ℕ → List ℕ
unfolding drop_spaces cut_spaces
normalized name = map to_lower (cut_spaces (drop_spaces name))

abbrev pub is_separator : ℕ → Bool
is_separator c = c == b'-' || c == b'_'

abbrev pub exact_sensitive_header_names : List (List ℕ)
exact_sensitive_header_names =
    codes "authorization"
    ∷ codes "cookie"
    ∷ codes "set-cookie"
    ∷ codes "proxy-authorization"
    ∷ codes "x-api-key"
    ∷ codes "api-key"
    ∷ []

abbrev pub compact_sensitive_header_names : List (List ℕ)
compact_sensitive_header_names =
    codes "apikey"
    ∷ codes "apitoken"
    ∷ codes "accesskey"
    ∷ codes "accesstoken"
    ∷ codes "refreshkey"
    ∷ codes "refreshtoken"
    ∷ codes "authkey"
    ∷ codes "authtoken"
    ∷ codes "csrfkey"
    ∷ codes "csrftoken"
    ∷ codes "sessionkey"
    ∷ codes "sessiontoken"
    ∷ codes "bearerkey"
    ∷ codes "bearertoken"
    ∷ codes "clientsecret"
    ∷ codes "clientkey"
    ∷ codes "clienttoken"
    ∷ codes "privatekey"
    ∷ codes "signingkey"
    ∷ codes "encryptionkey"
    ∷ []

abbrev pub sensitive_header_name_stems : List (List ℕ)
sensitive_header_name_stems =
    codes "token"
    ∷ codes "secret"
    ∷ codes "key"
    ∷ codes "password"
    ∷ codes "passwd"
    ∷ codes "credential"
    ∷ codes "bearer"
    ∷ []

abbrev pub same_separator : ℕ → ℕ
same_separator c = if is_separator c then b'-' else c

-- `/(?:^|[-_])(?:token|…)(?:$|[-_])/`: a stem holds no separator, so it is one of the parts between them.
unfoldable pub has_stem : List ℕ → Bool
unfolding split same_text
has_stem name =
    any (λ part. holds part sensitive_header_name_stems) (split b'-' (map same_separator name))

abbrev pub compact_of : List ℕ → List ℕ
compact_of = filter (λ c. not (is_separator c))

abbrev pub after_x : List ℕ → Bool
after_x [] = false
after_x (c ∷ rest) =
    c == b'x'
    && (holds rest compact_sensitive_header_names || holds rest sensitive_header_name_stems)

unfoldable pub is_sensitive_header_name : List ℕ → Bool
unfolding normalized has_stem same_text
is_sensitive_header_name name =
    let lower = normalized name in
    let compact = compact_of lower in
    holds lower exact_sensitive_header_names
    || has_stem lower
    || holds compact compact_sensitive_header_names
    || after_x compact

abbrev pub is_lower : ℕ → Bool
is_lower c = leb b'a' c && leb c b'z'

abbrev pub is_digit : ℕ → Bool
is_digit c = leb b'0' c && leb c b'9'

abbrev pub starts_lower : List ℕ → Bool
starts_lower [] = false
starts_lower (c ∷ cs) = is_lower c

-- The dashes of both replacements: before the last capital of several that a small letter follows, and
-- before a capital after a small letter or a digit. `last` is the unit before the text.
unfoldable pub split_words : ℕ → List ℕ → List ℕ
split_words last [] = []
split_words last (c ∷ cs) =
    let rest = split_words c cs in
    if is_upper c && ((is_upper last && starts_lower cs) || is_lower last || is_digit last)
    then b'-' ∷ c ∷ rest
    else c ∷ rest

abbrev pub word_unit : ℕ → ℕ
word_unit c = if is_lower c || is_digit c then c else b'-'

abbrev pub is_there : List ℕ → Bool
is_there [] = false
is_there (c ∷ cs) = true

-- `name.trim()` with the dashes, in small letters, split at what is no letter and no digit.
unfoldable pub property_name_segments : List ℕ → List (List ℕ)
unfolding drop_spaces cut_spaces split_words split
property_name_segments name =
    let words = map to_lower (split_words 0 (cut_spaces (drop_spaces name))) in
    filter is_there (split b'-' (map word_unit words))

abbrev pub sensitive_property_segments : List (List ℕ)
sensitive_property_segments =
    codes "authorization"
    ∷ codes "bearer"
    ∷ codes "credential"
    ∷ codes "credentials"
    ∷ codes "passwd"
    ∷ codes "password"
    ∷ codes "secret"
    ∷ codes "token"
    ∷ []

abbrev pub sensitive_key_qualifiers : List (List ℕ)
sensitive_key_qualifiers =
    codes "access"
    ∷ codes "api"
    ∷ codes "auth"
    ∷ codes "bearer"
    ∷ codes "client"
    ∷ codes "csrf"
    ∷ codes "encryption"
    ∷ codes "private"
    ∷ codes "secret"
    ∷ codes "session"
    ∷ codes "signing"
    ∷ []

abbrev pub sensitive_key_payload_segments : List (List ℕ)
sensitive_key_payload_segments =
    codes "bytes"
    ∷ codes "data"
    ∷ codes "material"
    ∷ codes "pair"
    ∷ codes "pem"
    ∷ codes "store"
    ∷ codes "value"
    ∷ []

abbrev pub is_key : List ℕ → Bool
is_key segment = same_text segment (codes "key")

-- The segment before the first `key`, if that is not the first.
unfoldable pub before_key : List (List ℕ) → Option (List ℕ)
unfolding same_text
before_key [] = none
before_key (s ∷ []) = none
before_key (s ∷ t ∷ rest) = let later = before_key (t ∷ rest) in if is_key t then some s else later

abbrev pub qualified : Option (List ℕ) → Bool
qualified none = false
qualified (some segment) = holds segment sensitive_key_qualifiers

abbrev pub key_with_payload : List (List ℕ) → Bool
key_with_payload [] = true
key_with_payload (s ∷ rest) = holds s sensitive_key_payload_segments

abbrev pub key_segments : List (List ℕ) → Bool
key_segments [] = false
key_segments (s ∷ rest) =
    if is_key s then key_with_payload rest else qualified (before_key (s ∷ rest))

unfoldable pub is_sensitive_property_name : List ℕ → Bool
unfolding is_sensitive_header_name property_name_segments before_key same_text
is_sensitive_property_name name =
    let segments = property_name_segments name in
    is_sensitive_header_name name
    || any (λ segment. holds segment sensitive_property_segments) segments
    || key_segments segments

-- `/url$/i` or one of the listed names
unfoldable pub is_url_property_name : List ℕ → Bool
unfolding same_text ends_with
is_url_property_name name =
    let lower = map to_lower name in
    ends_with (codes "url") lower
    || holds lower (
        codes "href"
        ∷ codes "uri"
        ∷ codes "endpoint"
        ∷ codes "callback"
        ∷ codes "redirect"
        ∷ codes "webhook"
        ∷ codes "target"
        ∷ [])
