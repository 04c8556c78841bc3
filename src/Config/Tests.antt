-- ===== src/Config/Tests.antt =====
-- Layers of one override each.
use sipi.Common.{ℕ, pos, negsuc, [], true, none, some, codes, ok, err, ◌≡◌, refl}
use sipi.Config.{ServerOverrides, default_overrides}
use sipi.Config.Lua.{LuaConfigFile, from_lua_config, lua_layer}
use sipi.Config.Lua.Range.{Ranged, from_lua_config-Ranged}

abbrev file : ServerOverrides ℕ
file = record default_overrides { serverport = some 1000; imgroot = some (codes "/base") }

abbrev env : ServerOverrides ℕ
env = record default_overrides { serverport = some 2000 }

abbrev cli : ServerOverrides ℕ
cli = record default_overrides { jwtkey = some (codes "secret") }

-- The defaults of the schema.
abbrev pub lua_file : LuaConfigFile
lua_file = record {
  hostname = codes "localhost";
  port = pos 3333;
  ssl_port = negsuc 0;
  img_root = codes ".";
  max_temp_file_age = pos 86400;
  prefix_as_path = true;
  jpeg_quality = pos 80;
  scaling_quality = record { jpeg = none; tiff = none; png = none; j2k = none };
  init_script = codes ".";
  cache_dir = codes "./cache";
  cache_size = codes "200M";
  cache_nfiles = pos 200;
  thumb_size = codes "!128,128";
  max_post_size = codes "0";
  tmp_dir = codes "/tmp";
  script_dir = codes "./scripts";
  jwt_secret = [];
  knora_path = codes "localhost";
  knora_port = codes "3333";
  admin_user = [];
  admin_password = [];
  docroot = [];
  wwwroute = [];
  drain_timeout = pos 30;
  routes = [];
}

lua_defaults :
    from_lua_config ℕ lua_file ≡ ok (lua_layer ℕ lua_file 3333 (pos 86400) 200 (pos 80) (negsuc 0))
unfolding from_lua_config
lua_defaults = refl

lua_port_65536 :
    from_lua_config ℕ (record lua_file { port = pos 65536 })
    ≡ err (record { key = codes "sipi.port"; value = pos 65536 })
unfolding from_lua_config
lua_port_65536 = refl

from_lua_config-Ranged_example : Ranged ℕ lua_file (from_lua_config ℕ lua_file)
from_lua_config-Ranged_example = from_lua_config-Ranged ℕ lua_file
