-- ===== src/Replies.antt =====
-- The responses that the shell builds itself, and what it reads of a request's headers: the helpers of
-- server-rs/src/routes.rs. A header that a builder appends under a name it has not used is an insert.
pub mod Disposition
mod Tests
use sipi.Common.{
  ℕ, ◌/◌, ◌%◌, ◌+◌, List, [], ◌∷◌, ◌++◌, map, Bool, true, false, ◌&&◌, ◌||◌, not, Option, none,
  some, Text, codes, is_empty, ◌=t=◌, split, ltb, leb, ◌==◌, unwrap_or, and_then, if◌then◌else◌,
  is_ascii_digit,
}
use sipi.Http.{Http, Response, no_body, whole}
use sipi.Sink.{error_response}
use sipi.Access.{Request}
use sipi.Iiif.Request.{ParsedRequest}

-- White space, in a header's text, which is ASCII.
abbrev pub is_space : ℕ → Bool
is_space c = c == 32 || (leb 9 c && leb c 13)

unfoldable pub trim_start : Text → Text
trim_start [] = []
trim_start (c ∷ s) = let rest = trim_start s in if is_space c then rest else c ∷ s

unfoldable pub trim_end : Text → Text
trim_end [] = []
trim_end (c ∷ s) = let rest = trim_end s in if is_empty rest && is_space c then [] else c ∷ rest

abbrev pub last : List Text → Text
last [] = []
last (t ∷ []) = t
last (t ∷ u ∷ us) = last (u ∷ us)

abbrev pub or_else : Option Text → Option Text → Option Text
or_else none b = b
or_else (some a) b = some a

unfoldable pub forwarded : Request → Text × Text
forwarded req = (
  (if unwrap_or (req.header_str (codes "x-forwarded-proto")) [] =t= codes "https"
      then codes "https"
      else codes "http"),
  unwrap_or (or_else (req.header_str (codes "x-forwarded-host")) (req.header_str (codes "host")))
      [],
)

unfoldable pub canonical_id : Text → Text → Text → Text → Text
canonical_id scheme host prefix identifier =
    let root = scheme ++ (codes "://" ++ (host ++ codes "/")) in
    if is_empty prefix then root ++ identifier else root ++ (prefix ++ (codes "/" ++ identifier))

-- `v.rsplit(',').next().trim()`.
unfoldable pub client_ip : Request → Text
unfolding trim_start trim_end
client_ip req = elim (req.header_str (codes "x-forwarded-for")) [
  | none ↦ []
  | some v ↦ trim_end (trim_start (last (split b',' v)))
]

unfoldable pub has_request_body : Text → Bool
has_request_body method =
    method =t= codes "POST"
    || method =t= codes "PUT"
    || method =t= codes "PATCH"
    || method =t= codes "DELETE"

-- The methods of a configured route.
unfoldable pub method_filter : Text → Option Text
method_filter method =
    if method =t= codes "GET"
      || method =t= codes "HEAD"
      || method =t= codes "POST"
      || method =t= codes "PUT"
      || method =t= codes "DELETE"
      || method =t= codes "OPTIONS"
    then some method
    else none

-- The bytes that survive R8.
unfoldable pub safe_bytes : Text → Text
safe_bytes [] = []
safe_bytes (b ∷ s) =
    let rest = safe_bytes s in if leb 32 b && not (b == 127) then b ∷ rest else rest

abbrev pub all_below : ℕ → Text → Bool
all_below n [] = true
all_below n (b ∷ s) = ltb b n && all_below n s

-- `"` and `\` are escaped.
unfoldable pub quote : Text → Text
quote [] = []
quote (b ∷ s) = let rest = quote s in if b == b'"' || b == 92 then 92 ∷ b ∷ rest else b ∷ rest

abbrev pub is_alphanumeric : ℕ → Bool
is_alphanumeric b = is_ascii_digit b || (leb 65 b && leb b 90) || (leb 97 b && leb b 122)

abbrev pub is_unreserved : ℕ → Bool
is_unreserved b = is_alphanumeric b || b == b'-' || b == b'.' || b == b'_' || b == b'~'

abbrev pub upper_hex : ℕ → ℕ
upper_hex d = if ltb d 10 then 48 + d else 55 + d

unfoldable pub percent_encode : Text → Text
percent_encode [] = []
percent_encode (b ∷ s) =
    let rest = percent_encode s in
    if is_unreserved b then b ∷ rest else b'%' ∷ upper_hex (b / 16) ∷ upper_hex (b % 16) ∷ rest

abbrev quotation : Text
quotation = b'"' ∷ []

unfoldable pub disposition_text : Text → Text
unfolding safe_bytes quote percent_encode
disposition_text identifier =
    let safe = safe_bytes identifier in
    if all_below 127 safe
    then codes "inline; filename=" ++ (quotation ++ (quote safe ++ quotation))
    else codes "inline; filename*=UTF-8''" ++ percent_encode safe

-- The canonical info.json of a bare identifier.
unfoldable pub redirect_target : {F : Type 0} → Request → ParsedRequest F → Text
unfolding forwarded
redirect_target req parsed =
    let (scheme, host) = forwarded req in
    let root = scheme ++ (codes "://" ++ (host ++ codes "/")) in
    if is_empty parsed.prefix
    then root ++ (parsed.identifier ++ codes "/info.json")
    else root ++ (parsed.prefix ++ (codes "/" ++ (parsed.identifier ++ codes "/info.json")))

module _ {M : Type 0} (http : Http M) where
  unfoldable pub content_disposition : Text → Option Text
  unfolding disposition_text
  content_disposition identifier = http.from_str (disposition_text identifier)

  abbrev pub with_header : Text → Text → Response M → Response M
  with_header name value r = record r { headers = http.insert name value r.headers }

  -- The origin of a request that is a header's value.
  unfoldable pub origin_of : Request → Option Text
  origin_of req = and_then (req.header_str (codes "origin")) http.from_str

  unfoldable pub busy_response : Response M
  unfolding error_response
  busy_response = with_header (codes "retry-after") (codes "1") (error_response http 503)

  unfoldable pub redirect : {F : Type 0} → Request → ParsedRequest F → Response M
  unfolding redirect_target error_response
  redirect req parsed =
      let target = redirect_target req parsed in
      elim (http.from_str target) [
        | none ↦ error_response http 400
        | some location ↦ with_header (codes "content-type") (codes "text/plain") (
            with_header (codes "location") location (record {
              status = 303;
              headers = http.empty;
              body = whole (codes "Redirect to " ++ target);
            }))
      ]

  -- The origin, with the credentials.
  abbrev pub with_origin : Option Text → Response M → Response M
  with_origin none r = r
  with_origin (some origin) r =
      with_header (codes "access-control-allow-credentials") (codes "true")
        (with_header (codes "access-control-allow-origin") origin r)

  unfoldable pub cors_preflight_response : Request → Response M
  unfolding origin_of
  cors_preflight_response req =
      let r = with_origin (origin_of req) (
        with_header (codes "access-control-allow-methods") (codes "GET, POST, PUT, DELETE")
          (record { status = 204; headers = http.empty; body = no_body })) in
      elim (and_then (req.header_str (codes "access-control-request-headers")) http.from_str) [
        | none ↦ r
        | some h ↦ with_header (codes "access-control-allow-headers") h r
      ]

  abbrev pub json_type : Text
  json_type = codes "application/json"

  abbrev ld_type : Text → Text
  ld_type ctx = codes "application/ld+json;profile=" ++ (quotation ++ (ctx ++ quotation))

  abbrev link_value : Text → Text
  link_value ctx =
      codes "<"
      ++ (ctx
          ++ (codes ">; rel="
              ++ (quotation
                  ++ (codes "http://www.w3.org/ns/json-ld#context"
                      ++ (quotation
                          ++ (codes "; type="
                              ++ (quotation ++ (codes "application/ld+json" ++ quotation))))))))

  abbrev with_acao : Text → Response M → Response M
  with_acao acao r = elim (http.from_str acao) [
    | none ↦ r
    | some v ↦
        let r' = with_header (codes "access-control-allow-origin") v r in
        if acao =t= codes "*"
        then r'
        else with_header (codes "access-control-allow-credentials") (codes "true") r'
  ]

  -- The body is the value's text.
  unfoldable pub json_response : ℕ → Text → Request → Option Text → Text → Response M
  json_response status body req link_context acao =
      let r =
        with_acao acao (record { status = status; headers = http.empty; body = whole body }) in
      elim link_context [
        | none ↦ with_header (codes "content-type") json_type r
        | some ctx ↦
            if unwrap_or (req.header_str (codes "accept")) [] =t= codes "application/ld+json"
            then with_header (codes "content-type") (ld_type ctx) r
            else with_header (codes "link") (link_value ctx)
                (with_header (codes "content-type") json_type r)
      ]
