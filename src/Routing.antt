-- ===== src/Routing.antt =====
-- The configured Lua routes: `read_routes` of src/scripting/rust/entry.rs, and what server-rs/src/lib.rs
-- registers for them. What the Lua virtual machine answers is a parameter: the values that the table
-- `routes` holds at 1, 2 and so on, after which it holds `nil`.
pub mod Vocabulary
mod Tests
use sipi.Common.{
  ℕ, ◌+◌, List, [], ◌∷◌, ◌++◌, map, Bool, true, false, not, Option, none, some, Text, codes, ◌=t=◌,
  if◌then◌else◌, Result, ok, err, ◌>>=◌,
}
use sipi.Config.Lua.{LuaRouteSpec}
use sipi.ConfigFile.{RouteEntry, compose_script_path, listed}
use sipi.Replies.{method_filter}
use sipi.Docroot.Handler.{trim_end_slashes}

-- A value at a key of a row.
pub data Field : Type 0 where
  string : Text → Field
  no_string : Field

-- What the reads of a row's keys answer; a read may fail.
pub record Row : Type 0 where
  pub get : Text → Result Text Field

pub data RowValue : Type 0 where
  nil other : RowValue
  table : Row → RowValue

pub data Global : Type 0 where
  rows : List (Result Text RowValue) → Global
  no_table : Global

-- The kinds of error, with what their texts tell.
pub data RoutesError : Type 0 where
  lua_error : Text → RoutesError
  routes_no_table : RoutesError
  row_no_table : ℕ → RoutesError
  field_no_string : ℕ → Text → RoutesError
  unknown_method : Text → RoutesError

abbrev pub route_methods : List Text
route_methods =
    codes "GET"
    ∷ codes "PUT"
    ∷ codes "POST"
    ∷ codes "DELETE"
    ∷ codes "OPTIONS"
    ∷ codes "CONNECT"
    ∷ codes "HEAD"
    ∷ codes "OTHER"
    ∷ []

unfoldable pub get_str : ℕ → Row → Text → Result RoutesError Text
get_str i row key = elim (row.get key) [
  | err e ↦ err (lua_error e)
  | ok v ↦ elim v [ string s ↦ ok s | no_string ↦ err (field_no_string i key) ]
]

unfoldable pub read_row : ℕ → Row → Result RoutesError LuaRouteSpec
unfolding get_str listed
read_row i row = do
  method ← get_str i row (codes "method")
  if not (listed method route_methods) then err (unknown_method method) else (do
    route ← get_str i row (codes "route")
    script ← get_str i row (codes "script")
    ok (record { method = method; route = route; script = script }))

-- The rows from the `i`th on.
unfoldable pub read_rows : ℕ → List (Result Text RowValue) → Result RoutesError (List LuaRouteSpec)
unfolding read_row
read_rows i [] = ok []
read_rows i (err e ∷ vs) = err (lua_error e)
read_rows i (ok nil ∷ vs) = ok []
read_rows i (ok other ∷ vs) = err (row_no_table i)
read_rows i (ok (table row) ∷ vs) = do
  spec ← read_row i row
  specs ← read_rows (i + 1) vs
  ok (spec ∷ specs)

unfoldable pub read_routes : Result Text Global → Result RoutesError (List LuaRouteSpec)
unfolding read_rows
read_routes (err e) = err (lua_error e)
read_routes (ok no_table) = err routes_no_table
read_routes (ok (rows vs)) = read_rows 1 vs

unfoldable pub lua_entries : Text → List LuaRouteSpec → List RouteEntry
unfolding compose_script_path
lua_entries script_dir = map (λ r. record {
  method = r.method;
  route = r.route;
  script = compose_script_path script_dir r.script;
})

-- A method, a path of the router and the script that serves it.
pub record Registration : Type 0 where
  pub method : Text
  pub path : Text
  pub script : Text

unfoldable pub registrations : List RouteEntry → List Registration
unfolding method_filter trim_end_slashes
registrations [] = []
registrations (e ∷ es) = elim (method_filter e.method) [
  | none ↦ registrations es
  | some m ↦
      record { method = m; path = e.route; script = e.script }
      ∷ (if e.route =t= codes "/"
          then registrations es
          else record {
            method = m;
            path = trim_end_slashes e.route ++ codes "/{*rest}";
            script = e.script;
          }
            ∷ registrations es)
]
