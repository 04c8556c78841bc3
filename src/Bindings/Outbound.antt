-- ===== src/Bindings/Outbound.antt =====
-- `server.http`: the request that a script sends, and what it gets of the response. The client is a parameter:
-- it sends a request, and reads so many bytes of a body at most. Times are milliseconds, as in Limits.
pub mod Bounded
mod Tests
use sipi.Common.{
  ℕ, ◌+◌, ◌-◌, ◌*◌, ◌^◌, List, [], ◌∷◌, ◌++◌, Bool, true, false, not, ◌||◌, Option, none, some, ℤ,
  pos, negsuc, Text, codes, length, ltb, ◌=t=◌, to_ascii_lowercase, unwrap_or, if◌then◌else◌,
  Result, ok, err, ◌>>=◌,
}
use sipi.Limits.{Deadline, remaining}
use sipi.Settings.{Value, integer, table}
use sipi.Bindings.{Lua, coerce_string, RequestData}

abbrev pub http_body_cap : ℕ
http_body_cap = 16 * 1024 * 1024

abbrev pub http_default_timeout : ℕ
http_default_timeout = 2000

-- A `GET` request.
pub record Request : Type 0 where
  pub url : Text
  pub headers : List (Text × Text)
  pub timeout : ℕ

pub record Response : Type 0 where
  pub status : ℕ
  pub content_length : Option ℕ
  pub headers : List (Text × Text)
  -- The bytes that are read, of so many at most.
  pub take_to_end : ℕ → Result Text Text
  pub elapsed : ℕ

pub record Fetched : Type 0 where
  pub status_code : ℕ
  pub body : Text
  pub duration : ℕ
  pub header : List (Text × Text)

pub data Reply : Type 0 where
  fetched : Fetched → Reply
  failed : Text → Reply
  raised : Text → Reply

-- `ms.max(0)`.
abbrev not_below_zero : ℤ → ℕ
not_below_zero (pos n) = n
not_below_zero (negsuc n) = 0

abbrev pub lesser : ℕ → ℕ → ℕ
lesser m n = if ltb m n then m else n

unfoldable pub has_traceparent : List (Text × Text) → Bool
has_traceparent [] = false
has_traceparent ((name, value) ∷ hs) =
    let rest = has_traceparent hs in to_ascii_lowercase name =t= codes "traceparent" || rest

-- The headers that are sent: the trace goes on, unless the script has set its own.
unfoldable pub sent_headers : Option Text → List (Text × Text) → List (Text × Text)
unfolding has_traceparent
sent_headers none hs = hs
sent_headers (some tp) hs = if has_traceparent hs then hs else hs ++ (codes "traceparent", tp) ∷ []

abbrev failed_get : Text → Text → Reply
failed_get url e =
    failed (codes "'server.http(...)': HTTP GET request to " ++ (url ++ (codes " failed: " ++ e)))

abbrev pub over_cap : Reply
over_cap = failed (codes "'server.http(...)': response body exceeds the 16777216-byte cap")

abbrev pub capped : Text → Response → Result Text Text → Reply
capped url r (err e) = failed_get url e
capped url r (ok body) =
    if ltb http_body_cap (length body)
    then over_cap
    else fetched
        (record { status_code = r.status; body = body; duration = r.elapsed; header = r.headers })

abbrev pub declared_over : Option ℕ → Bool
declared_over none = false
declared_over (some len) = ltb http_body_cap len

-- What the script gets of the response.
unfoldable pub read_response : Text → Result Text Response → Reply
read_response url (err e) = failed_get url e
read_response url (ok r) =
    if declared_over r.content_length
    then over_cap
    else capped url r (r.take_to_end (http_body_cap + 1))

module _ {F T : Type 0} (lua : Lua F T) where
  -- The pairs of a table of headers: those of two texts count.
  unfoldable pub add_headers :
      List (Result Text (Value F T × Value F T))
      → List (Text × Text)
      → Result Text (List (Text × Text))
  unfolding coerce_string
  add_headers [] hs = ok hs
  add_headers (err e ∷ ps) hs = err e
  add_headers (ok (k, v) ∷ ps) hs =
      let rest = add_headers ps in
      elim (coerce_string lua k) [
        | none ↦ rest hs
        | some name ↦ elim (coerce_string lua v) [
          | none ↦ rest hs
          | some value ↦ rest (hs ++ (name, value) ∷ [])
        ]
      ]

  -- The arguments behind the url: headers and a time, of which the last one counts.
  unfoldable pub http_arguments :
      List (Value F T) → List (Text × Text) → ℕ → Result Text (List (Text × Text) × ℕ)
  unfolding add_headers
  http_arguments [] hs timeout = ok (hs, timeout)
  http_arguments (table t ∷ args) hs timeout =
      add_headers (lua.pairs t) hs >>= λ gs. http_arguments args gs timeout
  http_arguments (integer ms ∷ args) hs timeout = http_arguments args hs (not_below_zero ms)
  http_arguments (_ ∷ args) hs timeout = http_arguments args hs timeout

  abbrev pub with_arguments :
      ℕ → RequestData → Text → Result Text (List (Text × Text) × ℕ) → Result Reply Request
  with_arguments left req url (err e) = err (raised e)
  with_arguments left req url (ok (hs, timeout)) = ok (record {
    url = url;
    headers = sent_headers req.traceparent hs;
    timeout = lesser timeout left;
  })

  -- The request, with what is left of the deadline, or the reply that refuses it.
  unfoldable pub http_request : ℕ → Deadline → RequestData → List (Value F T) → Result Reply Request
  unfolding coerce_string http_arguments sent_headers remaining
  http_request now deadline req (a ∷ b ∷ args) =
      let method = unwrap_or (coerce_string lua a) [] in
      let url = unwrap_or (coerce_string lua b) [] in
      if not (method =t= codes "GET")
      then err (failed (codes "'server.http(method, url, [header])': unknown method " ++ method))
      else with_arguments (remaining now deadline) req url
          (http_arguments args [] http_default_timeout)
  http_request now deadline req _ = err (
      failed
        (codes "'server.http(method, url [, header] [, timeout])' requires at least 2 parameters"))

  -- The reply, and what is left of the world. The client, which is made once, or why there is none, is the
  -- first argument.
  unfoldable pub http_client :
      {W : Type 0}
      → Result Text (Request → W → Result Text Response × W)
      → ℕ
      → Deadline
      → RequestData
      → List (Value F T)
      → W
      → Reply × W
  unfolding http_request read_response
  http_client client now deadline req args w = elim (http_request now deadline req args) [
    | err r ↦ (r, w)
    | ok request ↦ elim client [
      | err e ↦ (failed (codes "'server.http(...)': " ++ e), w)
      | ok send ↦ let (response, v) = send request w in (read_response request.url response, v)
    ]
  ]
