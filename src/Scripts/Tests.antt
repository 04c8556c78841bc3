-- ===== src/Scripts/Tests.antt =====
-- A route that prints and then fails, and a hook that denies.
use sipi.Common.{List, [], ◌∷◌, true, false, none, Text, codes, ◌≡◌, refl, ok, ℤ}
use sipi.Http.Sample.{Pairs, sample_http}
use sipi.Sink.{chunk, body_abort}
use sipi.Access.{decision}
use sipi.Scripts.{Script, returns, fails, other, print, send_status, ResponseCookie, render}
use sipi.Scripts.Hook.{Value, string, table, run_hook}
use sipi.Scripts.Permissions.{Returns, Sound, run_hook-Sound}
use sipi.Scripts.Phases.{fresh}
use sipi.Scripts.Endings.{Ends, run_lua_route_blocking-Ends}
use sipi.Scripts.Route.{loaded, run_route, run_lua_route_blocking}

abbrev epoch : ℤ → Text
epoch seconds = codes "Thu, 01 Jan 1970 00:00:00 GMT"

abbrev quiet : Script (Unit {0})
quiet = returns tt

abbrev breaks : Script (Unit {0})
breaks = send_status 201 (print (codes "half") (λ done. fails other))

abort_test :
    (run_lua_route_blocking sample_http epoch quiet (loaded breaks) 5).items
    ≡ chunk (codes "half") ∷ body_abort ∷ []
unfolding run_lua_route_blocking
abort_test = refl

-- An init script that writes a body and fails ends the body cleanly.
silent_test :
    (run_lua_route_blocking sample_http epoch breaks (loaded quiet) 5).items
    ≡ chunk (codes "half") ∷ []
unfolding run_lua_route_blocking
silent_test = refl

run_lua_route_blocking-Ends_example :
    Ends
      ((run_route {M = Pairs} epoch quiet (loaded breaks) (fresh 5)).0.result)
      (run_lua_route_blocking sample_http epoch quiet (loaded breaks) 5)
run_lua_route_blocking-Ends_example =
    run_lua_route_blocking-Ends sample_http epoch quiet (loaded breaks) 5 tt

abbrev denies : Script (List Value)
denies = returns (table ((string (codes "type"), string (codes "deny")) ∷ []) ∷ [])

denied : run_hook epoch true quiet denies ≡ ok (decision (codes "deny") ((codes "infile", []) ∷ []))
unfolding run_hook
denied = refl

run_hook-Sound_example :
    (vs : List Value) × Returns epoch quiet denies vs
    × Sound true vs (codes "deny", (codes "infile", []) ∷ [])
run_hook-Sound_example =
    run_hook-Sound epoch quiet denies true (codes "deny") ((codes "infile", []) ∷ []) denied

-- A denial that comes with a file of its own: the server reads the file.
abbrev denies_with_file : Script (List Value)
denies_with_file = returns (
    table (
      (string (codes "type"), string (codes "deny"))
      ∷ (string (codes "infile"), string (codes "/images/x"))
      ∷ [])
    ∷ [])

own_file_test :
    run_hook epoch true quiet denies_with_file
    ≡ ok (decision (codes "deny") ((codes "infile", codes "/images/x") ∷ (codes "infile", []) ∷ []))
unfolding run_hook
own_file_test = refl

abbrev session : ResponseCookie
session = record {
  name = codes "s";
  value = codes "1";
  path = codes "/";
  domain = [];
  expires_seconds = none;
  secure = true;
  http_only = false;
}

render_test : render epoch session ≡ codes "s=1; Path=/; Secure"
unfolding render
render_test = refl
