-- ===== src/Bindings/Tests.antt =====
-- A login, a session cookie and a MIME type.
use sipi.Common.{
  ℕ, List, [], ◌∷◌, true, false, none, some, pos, Text, codes, ◌≡◌, refl, Result, ok, arith,
}
use sipi.Uuid.{SoleUuid, base62}
use sipi.Uuid.Hyphens.{hyphenated, from_hyphenated}
use sipi.Bindings.Uuids.{uuid_to_base62, base62_to_uuid, base62_to_uuid-uuid_to_base62}
use sipi.Scripts.{ResponseWriter}
use sipi.Settings.{Value, boolean, integer, string, table}
use sipi.Bindings.{Lua, RequestData, done, text, send_cookie}
use sipi.Bindings.Requests.{header_of, require_auth}
use sipi.Bindings.Mimes.{split_mimetype}
use sipi.Bindings.Cookies.{Sent, send_cookie-Sent}
use sipi.Bindings.Auth.{basic_of, Credentials, require_auth-basic_iff}

abbrev Pair : Type 0
Pair = Result Text (Value Text (Unit {0}) × Value Text (Unit {0}))

-- Every table has these options.
abbrev session_options : List Pair
session_options =
    ok (string (codes "http_only"), boolean true)
    ∷ ok (string (codes "secure"), boolean false)
    ∷ ok (string (codes "expires"), integer (pos 60))
    ∷ []

abbrev sample : Lua Text (Unit {0})
sample = record { show_number = λ s. s; pairs = λ t. session_options }

abbrev arguments : List (Value Text (Unit {0}))
arguments = string (codes "sid") ∷ string (codes "1") ∷ table tt ∷ []

abbrev writer : ResponseWriter ℕ
writer = record {
  status = 200;
  status_set = false;
  headers = [];
  cookies = [];
  committed = false;
  commit_left = true;
  captured = 5;
}

secure_test : (send_cookie sample arguments writer).0 ≡ done
unfolding send_cookie
secure_test = refl

send_cookie-Sent_example : Sent sample arguments writer (send_cookie sample arguments writer)
send_cookie-Sent_example = send_cookie-Sent sample arguments writer

-- The decoder of this test is the identity.
abbrev login : RequestData
login = record {
  method = codes "GET";
  client_ip = codes "127.0.0.1";
  client_port = pos 50000;
  secure = false;
  host = codes "h";
  uri = codes "/login";
  cookies = [];
  get_params = [];
  post_params = [];
  request_params = [];
  content = [];
  content_type = [];
  jwt_secret = [];
  docroot = none;
  traceparent = none;
  headers = (codes "host", codes "h") ∷ (codes "authorization", codes "bAsIc  me:a:b") ∷ [];
  uploads = [];
}

login_test : require_auth some login ≡ basic_of (codes "me", codes "a:b")
unfolding require_auth
login_test = refl

require_auth-basic_iff_example :
    (auth : Text) × (header_of (codes "authorization") login.headers ≡ some auth)
    × Credentials some auth (codes "me", codes "a:b")
require_auth-basic_iff_example =
    (require_auth-basic_iff some login (codes "me") (codes "a:b")).0 login_test

charset_test :
    split_mimetype (codes "Text/HTML;  CharSet=\"UTF-8\"")
    ≡ some (codes "text/html", some (codes "utf-8"))
unfolding split_mimetype
charset_test = refl

-- A quote inside the charset stays.
quote_test :
    split_mimetype (codes "text/html; charset=a\"b") ≡ some (codes "text/html", some (codes "a\"b"))
unfolding split_mimetype
quote_test = refl

abbrev shortened : SoleUuid
shortened = record { ab = 18446744073709551615; cd = 9223372036854775808 }

hyphens_test : hyphenated shortened ≡ codes "ffffffff-ffff-ffff-8000-000000000000"
unfolding hyphenated
hyphens_test = refl

-- A sign is taken for a digit.
sign_test :
    from_hyphenated (codes "+0000000-0000-0000-0000-00000000000F")
    ≡ some (record { ab = 0; cd = 15 })
unfolding from_hyphenated
sign_test = refl

base62_to_uuid-uuid_to_base62_example :
    (uuid_to_base62 sample (string (hyphenated shortened) ∷ []) ≡ text (base62 shortened))
    × (base62_to_uuid sample (string (base62 shortened) ∷ []) ≡ text (hyphenated shortened))
base62_to_uuid-uuid_to_base62_example =
    base62_to_uuid-uuid_to_base62 sample shortened (omega arith) (omega arith)
