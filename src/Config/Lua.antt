-- ===== src/Config/Lua.antt =====
-- The Lua configuration as a layer of overrides: `LuaConfigFile` of src/scripting/rust/entry.rs, and
-- `from_lua_config` of server-rs/src/config.rs. The numbers of the file are 64-bit integers.
pub mod Range
use sipi.Common.{
  ℕ, ◌^◌, ◌<◌, ℤ, pos, negsuc, List, Bool, true, false, Option, none, some, Text, codes, ltb,
  if◌then◌else◌, Result, ok, err, ◌>>=◌, ◌≡◌, ◌⊎◌, inl, inr, refl, arith, ltb→lt, Bool-cases,
}
use sipi.Config.{ServerOverrides, ScalingQuality}

pub record LuaScalingQuality : Type 0 where
  pub jpeg : Option Text
  pub tiff : Option Text
  pub png : Option Text
  pub j2k : Option Text

pub record LuaRouteSpec : Type 0 where
  pub method : Text
  pub route : Text
  pub script : Text

pub record LuaConfigFile : Type 0 where
  pub hostname : Text
  pub port : ℤ
  pub ssl_port : ℤ
  pub img_root : Text
  pub max_temp_file_age : ℤ
  pub prefix_as_path : Bool
  pub jpeg_quality : ℤ
  pub scaling_quality : LuaScalingQuality
  pub init_script : Text
  pub cache_dir : Text
  pub cache_size : Text
  pub cache_nfiles : ℤ
  pub thumb_size : Text
  pub max_post_size : Text
  pub tmp_dir : Text
  pub script_dir : Text
  pub jwt_secret : Text
  pub knora_path : Text
  pub knora_port : Text
  pub admin_user : Text
  pub admin_password : Text
  pub docroot : Text
  pub wwwroute : Text
  pub drain_timeout : ℤ
  pub routes : List LuaRouteSpec

-- The key and the value of the error's text.
pub record OutOfRange : Type 0 where
  pub key : Text
  pub value : ℤ

-- `T::try_from(value)` for the unsigned type of `w` bits.
unfoldable pub to_unsigned : ℕ → ℤ → Option ℕ
to_unsigned w (pos n) = if ltb n (2 ^ w) then some n else none
to_unsigned w (negsuc n) = none

-- `i32::try_from(value)`.
unfoldable pub to_i32 : ℤ → Option ℤ
to_i32 (pos n) = if ltb n (2 ^ 31) then some (pos n) else none
to_i32 (negsuc n) = if ltb n (2 ^ 31) then some (negsuc n) else none

unfoldable pub narrow : {T : Type 0} → (ℤ → Option T) → ℤ → Text → Result OutOfRange T
narrow try_from value key = elim (try_from value) [
  | none ↦ err (record { key = key; value = value })
  | some t ↦ ok t
]

-- The overrides, once the numbers are narrow.
unfoldable pub lua_layer : (R : Type 0) → LuaConfigFile → ℕ → ℤ → ℕ → ℤ → ℤ → ServerOverrides R
lua_layer R cfg port age nfiles quality ssl_port = record {
  serverport = some port;
  imgroot = some cfg.img_root;
  scriptdir = some cfg.script_dir;
  initscript = some cfg.init_script;
  tmpdir = some cfg.tmp_dir;
  maxtmpage = some age;
  docroot = some cfg.docroot;
  wwwroute = some cfg.wwwroute;
  pathprefix = some cfg.prefix_as_path;
  jwtkey = some cfg.jwt_secret;
  adminuser = some cfg.admin_user;
  adminpasswd = some cfg.admin_password;
  cache_dir = some cfg.cache_dir;
  cache_size = some cfg.cache_size;
  cache_nfiles = some nfiles;
  memory_limit = none;
  admission_mode = none;
  tiles_memory_ratio = none;
  large_decode_threshold_bytes = none;
  maxpost = some cfg.max_post_size;
  thumbsize = some cfg.thumb_size;
  knorapath = some cfg.knora_path;
  knoraport = some cfg.knora_port;
  loglevel = none;
  jpeg_quality = some quality;
  scaling_quality = record {
    jpeg = cfg.scaling_quality.jpeg;
    tiff = cfg.scaling_quality.tiff;
    png = cfg.scaling_quality.png;
    j2k = cfg.scaling_quality.j2k;
  };
  hostname = some cfg.hostname;
  sslport = some ssl_port;
}

unfoldable pub from_lua_config :
    (R : Type 0) → LuaConfigFile → Result OutOfRange (ServerOverrides R)
unfolding narrow to_unsigned to_i32 lua_layer
from_lua_config R cfg = do
  port ← narrow (to_unsigned 16) cfg.port (codes "sipi.port")
  age ← narrow to_i32 cfg.max_temp_file_age (codes "sipi.max_temp_file_age")
  nfiles ← narrow (to_unsigned 32) cfg.cache_nfiles (codes "sipi.cache_nfiles")
  quality ← narrow to_i32 cfg.jpeg_quality (codes "sipi.jpeg_quality")
  ssl_port ← narrow to_i32 cfg.ssl_port (codes "sipi.ssl_port")
  ok (lua_layer R cfg port age nfiles quality ssl_port)
