-- ===== src/Routing/Tests.antt =====
-- Two rows of a Lua configuration, one of which the router does not serve.
use sipi.Common.{[], ◌∷◌, Text, codes, ◌=t=◌, if◌then◌else◌, Result, ok, err, ◌≡◌, ◌⊎◌, inl, refl}
use sipi.Config.Lua.{LuaRouteSpec}
use sipi.Routing.{
  Row, nil, other, table, string, no_string, Global, rows, row_no_table, unknown_method,
  read_routes, lua_entries, registrations,
}
use sipi.Routing.Vocabulary.{Routed, entry, read_routes-Routed}

abbrev row_of : LuaRouteSpec → Row
row_of r = record {
  get = λ key. ok (
      if key =t= codes "method"
      then string r.method
      else if key =t= codes "route"
      then string r.route
      else if key =t= codes "script"
      then string r.script
      else no_string);
}

abbrev upload : LuaRouteSpec
upload = record { method = codes "POST"; route = codes "/api/upload"; script = codes "upload.lua" }

abbrev tunnel : LuaRouteSpec
tunnel = record { method = codes "CONNECT"; route = codes "/t"; script = codes "t.lua" }

abbrev globals : Result Text Global
globals =
    ok (rows (ok (table (row_of upload)) ∷ ok (table (row_of tunnel)) ∷ ok nil ∷ ok other ∷ []))

read_globals : read_routes globals ≡ ok (upload ∷ tunnel ∷ [])
unfolding read_routes
read_globals = refl

second_no_table :
    read_routes (ok (rows (ok (table (row_of upload)) ∷ ok other ∷ []))) ≡ err (row_no_table 2)
unfolding read_routes
second_no_table = refl

patch :
    read_routes (ok (rows (ok (table (row_of (record upload { method = codes "PATCH" }))) ∷ [])))
    ≡ err (unknown_method (codes "PATCH"))
unfolding read_routes
patch = refl

-- The route of the method CONNECT is not registered.
registered :
    registrations (lua_entries (codes "/scripts/") (upload ∷ tunnel ∷ []))
    ≡ record {
      method = codes "POST";
      path = codes "/api/upload";
      script = codes "/scripts/upload.lua";
    }
      ∷ record {
        method = codes "POST";
        path = codes "/api/upload/{*rest}";
        script = codes "/scripts/upload.lua";
      }
      ∷ []
unfolding registrations lua_entries
registered = refl

read_routes-Routed_example :
    Routed
      (registrations (lua_entries (codes "/scripts/") (upload ∷ tunnel ∷ [])))
      (entry (codes "/scripts/") upload)
    ⊎ (codes "POST" ≡ codes "CONNECT")
    ⊎ (codes "POST" ≡ codes "OTHER")
read_routes-Routed_example =
    read_routes-Routed (codes "/scripts/") globals (upload ∷ tunnel ∷ []) upload read_globals
      (inl refl)
