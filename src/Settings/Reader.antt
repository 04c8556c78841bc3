-- ===== src/Settings/Reader.antt =====
-- `read_config` of src/scripting/rust/entry.rs.
use sipi.Common.{ℤ, pos, negsuc, [], true, Text, codes, Option, Result, ok, err, ◌>>=◌}
use sipi.Config.Lua.{LuaConfigFile, LuaScalingQuality}
use sipi.Routing.{read_routes}
use sipi.Settings.{
  LuaState, ConfigFailure, routes_error, section, cfg_string, cfg_integer, cfg_boolean, cfg_float,
  cfg_string_table, pick, read_cache_size, parse_size_string, quality_of, not_negative,
  at_least_one,
}

abbrev pub as_routes : {A E : Type 0} → (E → ConfigFailure) → Result E A → Result ConfigFailure A
as_routes f (ok a) = ok a
as_routes f (err e) = err (f e)

module _ {F T : Type 0} (vm : LuaState F T) where
  unfoldable pub read_cache_dir : Option T → Result ConfigFailure Text
  unfolding cfg_string pick
  read_cache_dir sipi = do
    new ← cfg_string vm sipi (codes "sipi") (codes "cache_dir") []
    old ← cfg_string vm sipi (codes "sipi") (codes "cachedir") []
    pick vm new old (codes "cachedir") (codes "cache_dir") (codes "./cache")

  unfoldable pub read_max_post_size : Option T → Result ConfigFailure Text
  unfolding cfg_string parse_size_string
  read_max_post_size sipi = do
    size ← cfg_string vm sipi (codes "sipi") (codes "max_post_size") (codes "0")
    v ← parse_size_string size
    ok size

  -- The fields, from what is read before them.
  module _ (sipi admin fileserver : Option T) where
    abbrev text_of : Text → Text → Result ConfigFailure Text
    text_of key default = cfg_string vm sipi (codes "sipi") key default

    abbrev integer_of : Text → ℤ → Result ConfigFailure ℤ
    integer_of key default = cfg_integer vm sipi (codes "sipi") key default

    unfoldable pub read_fields :
        Text → Text → Text → LuaScalingQuality → Result ConfigFailure LuaConfigFile
    unfolding cfg_string cfg_integer cfg_boolean not_negative at_least_one read_routes
    read_fields cache_dir cache_size max_post_size scaling_quality = do
      hostname ← text_of (codes "hostname") (codes "localhost")
      port ← integer_of (codes "port") (pos 3333)
      ssl_port ← integer_of (codes "ssl_port") (negsuc 0)
      img_root ← text_of (codes "imgroot") (codes ".")
      age ← integer_of (codes "max_temp_file_age") (pos 86400)
      prefix ← cfg_boolean vm sipi (codes "sipi") (codes "prefix_as_path") true
      quality ← integer_of (codes "jpeg_quality") (pos 80)
      init_script ← text_of (codes "initscript") (codes ".")
      nfiles ← integer_of (codes "cache_nfiles") (pos 200)
      thumb_size ← text_of (codes "thumb_size") (codes "!128,128")
      tmp_dir ← text_of (codes "tmpdir") (codes "/tmp")
      script_dir ← text_of (codes "scriptdir") (codes "./scripts")
      jwt_secret ← text_of (codes "jwt_secret") []
      knora_path ← text_of (codes "knora_path") (codes "localhost")
      knora_port ← text_of (codes "knora_port") (codes "3333")
      admin_user ← cfg_string vm admin (codes "admin") (codes "user") []
      admin_password ← cfg_string vm admin (codes "admin") (codes "password") []
      docroot ← cfg_string vm fileserver (codes "fileserver") (codes "docroot") []
      wwwroute ← cfg_string vm fileserver (codes "fileserver") (codes "wwwroute") []
      drain ← integer_of (codes "drain_timeout") (pos 30)
      routes ← as_routes routes_error (read_routes vm.routes)
      ok (record {
        hostname = hostname;
        port = port;
        ssl_port = ssl_port;
        img_root = img_root;
        max_temp_file_age = age;
        prefix_as_path = prefix;
        jpeg_quality = quality;
        scaling_quality = scaling_quality;
        init_script = init_script;
        cache_dir = cache_dir;
        cache_size = cache_size;
        cache_nfiles = not_negative nfiles;
        thumb_size = thumb_size;
        max_post_size = max_post_size;
        tmp_dir = tmp_dir;
        script_dir = script_dir;
        jwt_secret = jwt_secret;
        knora_path = knora_path;
        knora_port = knora_port;
        admin_user = admin_user;
        admin_password = admin_password;
        docroot = docroot;
        wwwroute = wwwroute;
        drain_timeout = at_least_one drain;
        routes = routes;
      })

  unfoldable pub read_config : Result ConfigFailure LuaConfigFile
  unfolding section read_cache_dir read_cache_size cfg_float read_max_post_size cfg_string_table
      quality_of read_fields
  read_config = do
    sipi ← section vm (codes "sipi")
    admin ← section vm (codes "admin")
    fileserver ← section vm (codes "fileserver")
    cache_dir ← read_cache_dir sipi
    cache_size ← read_cache_size vm sipi
    hysteresis ← cfg_float vm sipi (codes "sipi") (codes "cache_hysteresis")
    max_post_size ← read_max_post_size sipi
    scaling ← cfg_string_table vm sipi (codes "sipi") (codes "scaling_quality")
    read_fields sipi admin fileserver cache_dir cache_size max_post_size (quality_of scaling)
