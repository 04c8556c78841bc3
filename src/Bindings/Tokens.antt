-- ===== src/Bindings/Tokens.antt =====
-- Tokens and the log. The library of tokens is a parameter: what it encodes a claim to with a secret, and what
-- it reads from a token that it accepts with the secret.
use sipi.Common.{
  List, [], ◌∷◌, ◌++◌, Option, none, some, ℤ, pos, negsuc, Text, codes, is_empty, ◌==◌, ◌||◌,
  if◌then◌else◌, Result, ok, err, unwrap_or,
}
use sipi.Bindings.{Reply, done, text, failed, RequestData}
use sipi.Bindings.Json.{
  Tree, integer, table, Json, object, no_members, Numbers, lua_to_json, json_to_lua, text_of,
}

pub data Level : Type 0 where
  debug info warn error : Level

-- The severities ascend from 0.
unfoldable pub level_of : ℤ → Level
level_of (negsuc n) = debug
level_of (pos n) =
    if n == 0 then debug else if n == 1 || n == 2 then info else if n == 3 then warn else error

module _ {F N : Type 0} (numbers : Numbers F N) where
  unfoldable pub generate_jwt : (Text → Json N → Option Text) → RequestData → List (Tree F) → Reply
  unfolding lua_to_json
  generate_jwt encode req [] =
      failed (codes "'server.table_to_json(table)': table parameter missing")
  generate_jwt encode req (table ps ∷ args) = elim (lua_to_json numbers ps) [
    | err msg ↦ failed msg
    | ok claims ↦ elim (encode req.jwt_secret (unwrap_or claims (object no_members))) [
      | none ↦ failed (codes "'server.generate_jwt(table)': Encoding token failed")
      | some token ↦ text token
    ]
  ]
  generate_jwt encode req (_ ∷ args) =
      failed (codes "'server.table_to_json(table)': table is not a lua-table")

  -- The error, or the claims.
  unfoldable pub decode_jwt :
      (Text → Text → Result Text (Json N)) → RequestData → List (Tree F) → Result Text (Tree F)
  unfolding json_to_lua
  decode_jwt decode req (a ∷ []) = elim (text_of numbers a) [
    | none ↦ err (codes "'server.decode_jwt(token)': error in parameter list: is not string")
    | some token ↦ elim (decode req.jwt_secret token) [
      | err e ↦ err (codes "'server.decode_jwt(token)': Invalid token: " ++ e)
      | ok claims ↦ ok (json_to_lua numbers claims)
    ]
  ]
  decode_jwt decode req _ = err (codes "'server.decode_jwt(token)': error in parameter list")

  -- An error, if no level is given.
  abbrev logged_level : List (Tree F) → Option Level
  logged_level [] = some error
  logged_level (integer l ∷ args) = some (level_of l)
  logged_level (_ ∷ args) = none

  -- The reply, and the line that is logged.
  unfoldable pub log_message : List (Tree F) → Reply × Option (Level × Text)
  unfolding level_of
  log_message [] = (failed (codes "'server.log()': no message given"), none)
  log_message (a ∷ args) = elim (text_of numbers a) [
    | none ↦ (failed (codes "'server.log()': message is not a string"), none)
    | some message ↦ elim (logged_level args) [
      | none ↦ (failed (codes "'server.log()': level is not integer"), none)
      | some level ↦ (done, if is_empty message then none else some (level, message))
    ]
  ]
