-- ===== src/Bindings.antt =====
-- The functions of the table `server` that scripts call: src/scripting/rust/bindings/server.rs. Floats, tables
-- and the virtual machine are parameters.
pub mod Requests
pub mod Mimes
pub mod Cookies
pub mod Auth
pub mod Files
pub mod Json
pub mod Uuids
pub mod Tokens
pub mod Images
pub mod Outbound
mod Tests
use sipi.Common.{
  ℕ, ◌+◌, ◌-◌, List, [], ◌∷◌, ◌++◌, Bool, true, false, not, ◌&&◌, ◌||◌, Option, none, some, ℤ, pos,
  negsuc, Text, codes, length, get_elem?, ◌=t=◌, ◌==◌, if◌then◌else◌, Result, ok, err, ◌>>=◌,
}
use sipi.Scripts.{
  ResponseCookie, ResponseWriter, Closures, write, add_header, add_cookie, head_snapshot,
}
use sipi.Settings.{Value, nil, other, boolean, integer, number, string, table, show_integer}

-- How a float is shown, and the pairs of a table, each of which may fail.
pub record Lua (F T : Type 0) : Type 0 where
  pub show_number : F → Text
  pub pairs : T → List (Result Text (Value F T × Value F T))

-- What a call returns: `true` with nil, alone, with a value, with a list or with a table of texts; `false` with
-- a message; or an error that is raised in the script.
pub data Reply : Type 0 where
  done : Reply
  affirmed : Reply
  flag : Bool → Reply
  text : Text → Reply
  number_of : ℤ → Reply
  list : List Text → Reply
  fields : List (Text × Text) → Reply
  failed : Text → Reply
  raised : Text → Reply

pub record Upload : Type 0 where
  pub fieldname : Text
  pub origname : Text
  pub tmpname : Text
  pub mimetype : Text
  pub filesize : ℕ

-- The request as the functions see it.
pub record RequestData : Type 0 where
  pub method : Text
  pub client_ip : Text
  pub client_port : ℤ
  pub secure : Bool
  pub host : Text
  pub uri : Text
  pub headers : List (Text × Text)
  pub cookies : List (Text × Text)
  pub get_params : List (Text × Text)
  pub post_params : List (Text × Text)
  pub request_params : List (Text × Text)
  pub uploads : List Upload
  pub content : Text
  pub content_type : Text
  pub jwt_secret : Text
  pub docroot : Option Text
  pub traceparent : Option Text

-- The index counts from 1.
unfoldable pub upload_tmpname : RequestData → ℤ → Option Upload
upload_tmpname req (pos n) = if n == 0 then none else get_elem? req.uploads (n - 1)
upload_tmpname req (negsuc n) = none

-- `ResponseCookie::new`.
unfoldable pub new_cookie : Text → Text → ResponseCookie
new_cookie name value = record {
  name = name;
  value = value;
  path = [];
  domain = [];
  expires_seconds = none;
  secure = true;
  http_only = false;
}

-- Why the options of a cookie are refused.
pub data Stop : Type 0 where
  stop_failed : Text → Stop
  stop_raised : Text → Stop

module _ {F T : Type 0} (lua : Lua F T) where
  unfoldable pub coerce_string : Value F T → Option Text
  unfolding show_integer
  coerce_string (string s) = some s
  coerce_string (integer i) = some (show_integer i)
  coerce_string (number n) = some (lua.show_number n)
  coerce_string _ = none

  abbrev pub cookie_error : Text → Text
  cookie_error what = codes "'server.sendCookie(name, value[, options])': " ++ what

  -- A flag is only ever turned on.
  unfoldable pub set_option : Text → Value F T → ResponseCookie → Result Stop ResponseCookie
  unfolding coerce_string
  set_option name v c =
      if name =t= codes "path"
      then elim (coerce_string v) [
        | some p ↦ ok (record c { path = p })
        | none ↦ err (stop_failed (cookie_error (codes "path is not string")))
      ]
      else if name =t= codes "domain"
      then elim (coerce_string v) [
        | some d ↦ ok (record c { domain = d })
        | none ↦ err (stop_failed (cookie_error (codes "domain is not string")))
      ]
      else if name =t= codes "expires"
      then elim v [
        | integer secs ↦ ok (record c { expires_seconds = some secs })
        | _ ↦ err (stop_failed (cookie_error (codes "expires is not integer")))
      ]
      else if name =t= codes "secure"
      then elim v [
        | boolean b ↦ ok (if b then record c { secure = true } else c)
        | _ ↦ err (stop_failed (cookie_error (codes "secure is not boolean")))
      ]
      else if name =t= codes "http_only"
      then elim v [
        | boolean b ↦ ok (if b then record c { http_only = true } else c)
        | _ ↦ err (stop_failed (cookie_error (codes "http_only is not boolean")))
      ]
      else err (stop_failed (cookie_error (codes "unknown option: " ++ name)))

  unfoldable pub set_options :
      List (Result Text (Value F T × Value F T)) → ResponseCookie → Result Stop ResponseCookie
  unfolding set_option
  set_options [] c = ok c
  set_options (err t ∷ ps) c = err (stop_raised t)
  set_options (ok (k, v) ∷ ps) c = elim (coerce_string k) [
    | none ↦ err (stop_failed (cookie_error (codes "option name is not a string")))
    | some name ↦ set_option name v c >>= λ d. set_options ps d
  ]

  -- The name and the value of the first two arguments.
  unfoldable pub cookie_of : Value F T → Value F T → Option ResponseCookie
  unfolding coerce_string new_cookie
  cookie_of a b = elim (coerce_string a) [
    | none ↦ none
    | some name ↦ elim (coerce_string b) [ none ↦ none | some value ↦ some (new_cookie name value) ]
  ]

  abbrev pub wrong_number : Text
  wrong_number = cookie_error (codes "Invalid number of parameters")

  abbrev header_error : Text
  header_error = codes "'server.sendHeader(key,val)': Invalid number of parameters"

  module _ {S : Type 0} where
    abbrev pub with_cookie :
        Result Stop ResponseCookie → ResponseWriter S → Reply × ResponseWriter S
    with_cookie (ok c) w = (done, add_cookie c w)
    with_cookie (err (stop_failed t)) w = (failed t, w)
    with_cookie (err (stop_raised t)) w = (raised t, w)

    unfoldable pub send_cookie : List (Value F T) → ResponseWriter S → Reply × ResponseWriter S
    unfolding cookie_of set_options add_cookie
    send_cookie (a ∷ b ∷ []) w = elim (cookie_of a b) [
      | none ↦ (failed wrong_number, w)
      | some c ↦ with_cookie (ok c) w
    ]
    send_cookie (a ∷ b ∷ third ∷ []) w = elim (cookie_of a b) [
      | none ↦ (failed wrong_number, w)
      | some c ↦ elim third [
        | table options ↦ with_cookie (set_options (lua.pairs options) c) w
        | _ ↦ (failed (cookie_error (codes "options is not a lua-table")), w)
      ]
    ]
    send_cookie _ w = (failed wrong_number, w)

    unfoldable pub send_header : List (Value F T) → ResponseWriter S → Reply × ResponseWriter S
    unfolding coerce_string add_header
    send_header (a ∷ b ∷ []) w = elim (coerce_string a) [
      | none ↦ (failed header_error, w)
      | some name ↦ elim (coerce_string b) [
        | none ↦ (failed header_error, w)
        | some value ↦ (done, add_header name value w)
      ]
    ]
    send_header _ w = (failed header_error, w)

    -- What is no text and no number is skipped.
    unfoldable pub print :
        (ℤ → Text) → Closures S → List (Value F T) → ResponseWriter S → Reply × ResponseWriter S
    unfolding coerce_string write
    print date closures [] w = (done, w)
    print date closures (arg ∷ args) w = elim (coerce_string arg) [
      | none ↦ print date closures args w
      | some bytes ↦
          let (sent, w) = write date closures bytes w in
          let rest = print date closures args w in
          if sent then rest else (failed (codes "Sending data to connection failed"), w)
    ]

  abbrev is_integer : Value F T → Bool
  is_integer (integer i) = true
  is_integer _ = false

  abbrev buffer_error : Text → Text
  buffer_error what =
      codes "'server.setbuffer([bufize][, incsize])': requires "
      ++ (what ++ codes " size as integer")

  -- The arguments are checked, and nothing is done.
  unfoldable pub set_buffer : List (Value F T) → Reply
  set_buffer [] = done
  set_buffer (a ∷ []) = if is_integer a then done else failed (buffer_error (codes "bufsize"))
  set_buffer (a ∷ b ∷ args) =
      if not (is_integer a)
      then failed (buffer_error (codes "bufsize"))
      else if not (is_integer b)
      then failed (buffer_error (codes "incsize"))
      else done
