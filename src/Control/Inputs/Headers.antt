-- ===== src/Control/Inputs/Headers.antt =====
-- apps/api/src/index.ts, normalizeCustomRequestConfig: the request of a payload that writes back what a
-- response showed.
use webperf_selfhosted.Base.{
  String, ◌≡◌, false, Option, none, some, map, if◌then◌else◌, ◌=ₛ◌, codes,
}
use webperf_selfhosted.Redaction.Names.{is_sensitive_header_name}
use webperf_selfhosted.Control.Types.{RequestHeader, RequestBody, RequestConfig}
use webperf_selfhosted.Control.Inputs.{Platform, redacted_value, normalize_optional_text}

-- A header as a response shows it; the value holds no URL, whose query would be hidden too.
unfoldable pub shown_header : RequestHeader → RequestHeader
shown_header header =
    if is_sensitive_header_name (codes header.name)
    then record header { value = redacted_value }
    else header

abbrev pub shown_request : RequestConfig → RequestConfig
shown_request request = record request { headers = map shown_header request.headers }

module _ (platform : Platform) where
  abbrev pub header_key : RequestHeader → String
  header_key header = platform.lower_case (platform.trim header.name)

  -- A header as the handler stores it.
  pub record IsClean (header : RequestHeader) : Type 0 where
    pub name : platform.trim header.name ≡ header.name
    pub named : (header.name =ₛ "") ≡ false
    pub value : platform.trim header.value ≡ header.value

  abbrev pub IsCleanBody : Option RequestBody → Type 0
  IsCleanBody none = Unit {0}
  IsCleanBody (some body) = normalize_optional_text platform body.content_type ≡ body.content_type
