-- ===== src/Access.antt =====
-- The access decision of a request: the preflight part of server-rs/src/routes.rs. The hooks, scripts
-- of the operator, are a parameter: what a hook replies to a request, if it does not fail.
pub mod Earned
pub mod Tests
use sipi.Common.{
  ℕ, List, [], ◌∷◌, Bool, true, false, ◌&&◌, ◌||◌, Option, none, some, Text, codes, ◌=t=◌,
  unwrap_or, if◌then◌else◌, Result, ok, err, ◌>>=◌, ok_or,
}
use sipi.Http.{Http, Response}
use sipi.Sink.{error_response, direct_response}
use sipi.Preflight.{
  SipiPermType, allow, login, clickthrough, kiosk, external, restrict, deny, CachedDecision, KeyBuf,
  PreflightCache, make_key, get, insert,
}
use sipi.Paths.{
  build_request_path, validate_resolved_path, Resolved, resolved, not_found, traversal,
}
use sipi.Iiif.Request.{ParsedRequest}

-- A request, with its headers as `header_str` reads them; `contains_key` tells of any value.
pub record Request : Type 0 where
  pub method : Text
  pub path : Text
  pub header_str : Text → Option Text
  pub contains_key : Text → Bool

pub data PreflightReply : Type 0 where
  decision : Text → List (Text × Text) → PreflightReply
  direct : ℕ → List (Text × Text) → Text → PreflightReply

-- The hooks; `none` for one that fails or is killed.
pub record LuaEnv : Type 0 where
  pub preflight : Request → Text → Text → Option PreflightReply
  pub file_preflight : Request → Text → Option PreflightReply

pub record PreflightOutcome : Type 0 where
  pub permission : SipiPermType
  pub kv : List (Text × Text)

pub record Access : Type 0 where
  pub infile : Text
  pub permission : SipiPermType
  pub kv : List (Text × Text)

-- The part of the state that no request changes.
pub record AppState : Type 0 where
  pub ready : Bool
  pub imgroot : Text
  pub resolved_imgroot : Text
  pub prefix_as_path : Bool
  pub has_preflight : Bool
  pub has_file_preflight : Bool
  pub lua : Option LuaEnv

-- The value of the first entry under a key.
unfoldable pub lookup : Text → List (Text × Text) → Option Text
lookup key [] = none
lookup key ((k, v) ∷ kv) = let rest = lookup key kv in if k =t= key then some v else rest

unfoldable pub permission_from_str : Text → SipiPermType
permission_from_str s =
    if s =t= codes "allow"
    then allow
    else if s =t= codes "login"
    then login
    else if s =t= codes "clickthrough"
    then clickthrough
    else if s =t= codes "kiosk"
    then kiosk
    else if s =t= codes "external"
    then external
    else if s =t= codes "restrict"
    then restrict
    else deny

unfoldable pub access_from : PreflightOutcome → Access
unfolding lookup
access_from outcome = record {
  infile = unwrap_or (lookup (codes "infile") outcome.kv) [];
  permission = outcome.permission;
  kv = outcome.kv;
}

-- The key of a request in the cache.
unfoldable pub key_of : {F : Type 0} → (Text → ℕ) → ParsedRequest F → Request → KeyBuf
unfolding make_key
key_of hash parsed req =
    make_key hash parsed.prefix parsed.identifier (req.header_str (codes "cookie"))
      (req.header_str (codes "authorization"))

abbrev pub cached : PreflightOutcome → CachedDecision
cached outcome = record { permission = outcome.permission; kv = outcome.kv }

abbrev pub from_cache : CachedDecision → PreflightOutcome
from_cache hit = record { permission = hit.permission; kv = hit.kv }

unfoldable pub default_access : {F : Type 0} → AppState → ParsedRequest F → Access
unfolding build_request_path
default_access st parsed = record {
  infile = build_request_path st.imgroot parsed.prefix parsed.identifier st.prefix_as_path;
  permission = allow;
  kv = [];
}

-- `matches!(permission, Allow | Restrict)`.
unfoldable pub is_granted : SipiPermType → Bool
is_granted allow = true
is_granted restrict = true
is_granted login = false
is_granted clickthrough = false
is_granted kiosk = false
is_granted external = false
is_granted deny = false

module _ {M : Type 0} (http : Http M) where
  abbrev pub Answer : Type 0 → Type 0
  Answer A = Result (Response M) A

  unfoldable pub read_reply : Option PreflightReply → Answer PreflightOutcome
  unfolding permission_from_str direct_response error_response
  read_reply none = err (error_response http 500)
  read_reply (some (decision permission kv)) =
      ok (record { permission = permission_from_str permission; kv = kv })
  read_reply (some (direct status headers body)) = err (direct_response http status headers body)

  module _ {F : Type 0} (hash : Text → ℕ) (st : AppState) (parsed : ParsedRequest F)
      (req : Request) where
    unfoldable pub ask_hook : Answer PreflightOutcome
    unfolding read_reply error_response
    ask_hook = ok_or st.lua (error_response http 500) >>= λ lua.
        read_reply (lua.preflight req parsed.prefix parsed.identifier)

    -- After a miss: the hook, and its decision into the cache.
    unfoldable pub fill_cache :
        PreflightCache → ℕ → Answer PreflightOutcome → Option (Answer Access × PreflightCache)
    unfolding key_of access_from
    fill_cache cache now (err response) = some (err response, cache)
    fill_cache cache now (ok outcome) =
        elim (insert cache (key_of hash parsed req) (cached outcome) now) [
          | none ↦ none
          | some cache ↦ some (ok (access_from outcome), cache)
        ]

    unfoldable pub through_cache : PreflightCache → ℕ → ℕ → Option (Answer Access × PreflightCache)
    unfolding key_of access_from ask_hook fill_cache
    through_cache cache now later = elim (get cache (key_of hash parsed req) now) [
      | none ↦ none
      | some (some hit, cache) ↦ some (ok (access_from (from_cache hit)), cache)
      | some (none, cache) ↦ fill_cache cache later ask_hook
    ]

    -- The cache is looked up at one time and filled at a later one; `none` for a panic in it.
    unfoldable pub iiif_access :
        Option PreflightCache → ℕ → ℕ → Option (Answer Access × Option PreflightCache)
    unfolding through_cache ask_hook access_from default_access
    iiif_access cache now later =
        if st.has_preflight
        then elim cache [
          | none ↦ some ((ask_hook >>= λ outcome. ok (access_from outcome)), none)
          | some c ↦ elim (through_cache c now later) [
            | none ↦ none
            | some (answer, c') ↦ some (answer, some c')
          ]
        ]
        else some (ok (default_access st parsed), cache)

    -- The hook on the path that was built; what is not granted is refused here.
    unfoldable pub ask_file_hook : LuaEnv → Answer Access
    unfolding read_reply access_from is_granted error_response default_access
    ask_file_hook lua = do
      outcome ← read_reply (lua.file_preflight req (default_access st parsed).infile)
      if is_granted outcome.permission
          then ok (access_from outcome)
          else err (error_response http 401)

    unfoldable pub file_access : Answer Access
    unfolding ask_file_hook error_response default_access
    file_access =
        if st.has_file_preflight
        then ok_or st.lua (error_response http 500) >>= ask_file_hook
        else ok (default_access st parsed)

  unfoldable pub resolve : (Text → Option Text) → Text → Text → Answer Text
  unfolding validate_resolved_path error_response
  resolve canonicalize infile root = elim (validate_resolved_path canonicalize infile root) [
    | resolved p ↦ ok p
    | not_found ↦ err (error_response http 404)
    | traversal ↦ err (error_response http 400)
  ]
