-- ===== src/Scripts/Hook.antt =====
-- The preflight hooks: `run_hook` and `parse_preflight_values` of src/scripting/rust/entry.rs.
use sipi.Common.{
  List, [], ◌∷◌, ◌++◌, Bool, true, ◌&&◌, ◌||◌, Option, none, some, Text, codes, ◌=t=◌, unwrap_or,
  if◌then◌else◌, Result, ok, err, ◌>>=◌, ℤ,
}
use sipi.Access.{PreflightReply, decision, direct}
use sipi.Scripts.{
  Head, Closures, ResponseWriter, RuntimeError, Script, new_writer, head_snapshot, run,
}

-- A value of Lua: a text, `nil`, another value, or a table of the first three.
pub data Scalar : Type 0 where
  string : Text → Scalar
  nil : Scalar
  another : Scalar

pub data Value : Type 0 where
  scalar : Scalar → Value
  table : List (Scalar × Scalar) → Value

-- What the closures of a hook capture: the head that was committed, and the body.
pub record Buffer : Type 0 where
  pub head : Option Head
  pub body : Text

unfoldable pub buffering : Closures Buffer
buffering = record {
  commit = λ head b. record b { head = some head };
  write = λ bytes b. (true, record b { body = b.body ++ bytes });
}

unfoldable pub valid_permission : Text → Bool → Bool
valid_permission s extended =
    s =t= codes "allow"
    || s =t= codes "login"
    || s =t= codes "restrict"
    || s =t= codes "deny"
    || (extended && (s =t= codes "clickthrough" || s =t= codes "kiosk" || s =t= codes "external"))

-- An error of a hook, killed or not: a request gets a bare 500 of either.
pub data PreflightFailure : Type 0 where
  hook_killed hook_error : PreflightFailure

abbrev pub Parsed : Type 0 → Type 0
Parsed A = Result PreflightFailure A

unfoldable pub type_of : List (Scalar × Scalar) → Scalar
type_of [] = nil
type_of ((string k, v) ∷ t) = let rest = type_of t in if k =t= codes "type" then v else rest
type_of ((nil, v) ∷ t) = type_of t
type_of ((another, v) ∷ t) = type_of t

-- The pairs of a table whose keys are texts, without the type.
unfoldable pub extra_keys : List (Scalar × Scalar) → Parsed (List (Text × Text))
extra_keys [] = ok []
extra_keys ((nil, v) ∷ t) = extra_keys t
extra_keys ((another, v) ∷ t) = extra_keys t
extra_keys ((string k, string v) ∷ t) =
    let rest = extra_keys t in if k =t= codes "type" then rest else rest >>= λ kv. ok ((k, v) ∷ kv)
extra_keys ((string k, nil) ∷ t) =
    let rest = extra_keys t in if k =t= codes "type" then rest else err hook_error
extra_keys ((string k, another) ∷ t) =
    let rest = extra_keys t in if k =t= codes "type" then rest else err hook_error

unfoldable pub permission_of : Value → Parsed (Text × List (Text × Text))
unfolding type_of extra_keys
permission_of (scalar (string s)) = ok (s, [])
permission_of (scalar nil) = err hook_error
permission_of (scalar another) = err hook_error
permission_of (table t) = elim (type_of t) [
  | string s ↦ extra_keys t >>= λ kv. ok (s, kv)
  | nil ↦ err hook_error
  | another ↦ err hook_error
]

abbrev pub infile_of : List Value → Parsed Text
infile_of (scalar (string s) ∷ vs) = ok s
infile_of _ = err hook_error

unfoldable pub with_infile :
    Bool → List Value → Text → List (Text × Text) → Parsed (Text × List (Text × Text))
unfolding valid_permission
with_infile extended rest permission kv =
    if valid_permission permission extended
    then if permission =t= codes "deny"
      then ok (permission, kv ++ (codes "infile", []) ∷ [])
      else (infile_of rest >>= λ infile. ok (permission, kv ++ (codes "infile", infile) ∷ []))
    else err hook_error

unfoldable pub parse_preflight_values : Bool → List Value → Parsed (Text × List (Text × Text))
unfolding permission_of with_infile
parse_preflight_values extended [] = err hook_error
parse_preflight_values extended (v ∷ vs) =
    permission_of v >>= λ (permission, kv). with_infile extended vs permission kv

module _ (date : ℤ → Text) where
  unfoldable pub direct_reply : ResponseWriter Buffer → PreflightReply
  unfolding head_snapshot
  direct_reply w =
      let head = unwrap_or w.captured.head (head_snapshot date w) in
      direct (head.0) (head.1) w.captured.body

  abbrev decided : Parsed (Text × List (Text × Text)) → Parsed PreflightReply
  decided (err e) = err e
  decided (ok (permission, kv)) = ok (decision permission kv)

  -- The reply of a hook that ran: what it wrote wins over what it returned, and over an error.
  unfoldable pub reply_of :
      Bool → Result RuntimeError (List Value) → ResponseWriter Buffer → Parsed PreflightReply
  unfolding direct_reply parse_preflight_values
  reply_of extended (err RuntimeError.killed) w = err hook_killed
  reply_of extended (err RuntimeError.other) w =
      if w.status_set then ok (direct_reply w) else err hook_error
  reply_of extended (ok values) w =
      if w.status_set then ok (direct_reply w) else decided (parse_preflight_values extended values)

  abbrev as_failure : RuntimeError → PreflightFailure
  as_failure RuntimeError.killed = hook_killed
  as_failure RuntimeError.other = hook_error

  -- The init script, then the hook.
  unfoldable pub run_hook : Bool → Script (Unit {0}) → Script (List Value) → Parsed PreflightReply
  unfolding run buffering new_writer reply_of
  run_hook extended init hook =
      let (r, w) = run date buffering init (new_writer (record { head = none; body = [] })) in
      elim r [
        | err e ↦ err (as_failure e)
        | ok u ↦ let (values, w) = run date buffering hook w in reply_of extended values w
      ]
