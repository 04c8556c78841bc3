-- ===== src/Settings/Tests.antt =====
-- A file that sets a few keys, and sizes.
use sipi.Common.{ℕ, pos, [], Text, codes, ◌=t=◌, if◌then◌else◌, ok, err, ◌≡◌, refl}
use sipi.Config.Tests.{lua_file}
use sipi.Routing.{rows}
use sipi.Settings.{
  Value, nil, integer, string, table, LuaState, invalid_size, invalid_cache_size, expected,
  an_integer, parse_size_string,
}
use sipi.Settings.Reader.{read_config}
use sipi.Settings.Usable.{IsUsable, read_config-IsUsable}

-- Only the section `sipi` is there, with one key.
abbrev setting : Text → Value ℕ (Unit {0}) → LuaState ℕ (Unit {0})
setting key value = record {
  global = λ name. ok (if name =t= codes "sipi" then table tt else nil);
  routes = ok (rows []);
  get = λ t k. ok (if k =t= key then value else nil);
  pairs = λ t. [];
  format_lua_number = λ n. [];
}

defaults : read_config (setting [] nil) ≡ ok lua_file
unfolding read_config
defaults = refl

-- A number is a text, and the deprecated key is read.
cache_size_5 :
    read_config (setting (codes "cachesize") (integer (pos 5)))
    ≡ ok (record lua_file { cache_size = codes "5" })
unfolding read_config
cache_size_5 = refl

port_text :
    read_config (setting (codes "port") (string (codes "80")))
    ≡ err (expected an_integer (codes "sipi") (codes "port"))
unfolding read_config
port_text = refl

cache_below :
    read_config (setting (codes "cache_size") (string (codes "-1M")))
    ≡ err (invalid_cache_size (codes "-1M"))
unfolding read_config
cache_below = refl

sizes : parse_size_string (codes " 200 M") ≡ ok (pos 209715200)
unfolding parse_size_string
sizes = refl

too_large : parse_size_string (codes "9999999999G") ≡ err (invalid_size (codes "9999999999G"))
unfolding parse_size_string
too_large = refl

read_config-IsUsable_example : IsUsable (record lua_file { cache_size = codes "5" })
read_config-IsUsable_example =
    read_config-IsUsable (setting (codes "cachesize") (integer (pos 5)))
      (record lua_file { cache_size = codes "5" }) cache_size_5
