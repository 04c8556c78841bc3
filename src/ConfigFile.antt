-- ===== src/ConfigFile.antt =====
-- The TOML configuration file, its validation and the routes it configures:
-- server-rs/src/config_file.rs. `f64` is a type `R`; the read of the file and the TOML parser are
-- parameters, with the errors `I` and `P`.
pub mod Routes
pub mod Checked
mod Tests
use sipi.Common.{
  ℕ, ℤ, pos, negsuc, List, [], ◌∷◌, ◌++◌, Bool, true, false, not, ◌&&◌, ◌||◌, Option, none, some,
  Text, codes, is_empty, ◌=t=◌, leb, starts_with, to_ascii_uppercase, unwrap_or, if◌then◌else◌,
  Result, ok, err, ◌>>=◌,
}
use sipi.Config.{ServerOverrides, layered_over}
use sipi.Docroot.Handler.{trim_end_slashes}

pub record NetworkSection : Type 0 where
  pub port : Option ℕ

pub record PathsSection : Type 0 where
  pub img_root : Option Text
  pub script_dir : Option Text
  pub init_script : Option Text
  pub tmp_dir : Option Text
  pub max_temp_file_age : Option ℤ
  pub doc_root : Option Text
  pub www_route : Option Text
  pub prefix_as_path : Option Bool

pub record CacheSection : Type 0 where
  pub dir : Option Text
  pub size : Option Text
  pub n_files : Option ℕ

pub record LimitsSection (R : Type 0) : Type 0 where
  pub memory_limit : Option Text
  pub admission_mode : Option Text
  pub tiles_memory_ratio : Option R
  pub large_decode_threshold_bytes : Option ℕ
  pub max_post_size : Option Text
  pub thumb_size : Option Text

pub record ScalingQualitySection : Type 0 where
  pub jpeg : Option Text
  pub tiff : Option Text
  pub png : Option Text
  pub j2k : Option Text

pub record ImageSection : Type 0 where
  pub jpeg_quality : Option ℤ
  pub scaling_quality : ScalingQualitySection

pub record TlsAuthSection : Type 0 where
  pub jwt_secret : Option Text
  pub admin_user : Option Text
  pub admin_password : Option Text

pub record KnoraSection : Type 0 where
  pub path : Option Text
  pub port : Option Text

pub record LoggingSection : Type 0 where
  pub level : Option Text

pub record RouteSpec : Type 0 where
  pub method : Text
  pub route : Text
  pub script : Text

pub record Config (R : Type 0) : Type 0 where
  pub network : NetworkSection
  pub paths : PathsSection
  pub cache : CacheSection
  pub limits : LimitsSection R
  pub image : ImageSection
  pub tls_auth : TlsAuthSection
  pub knora : KnoraSection
  pub logging : LoggingSection
  pub routes : List RouteSpec

pub record RouteEntry : Type 0 where
  pub method : Text
  pub route : Text
  pub script : Text

pub data ConfigError (I P : Type 0) : Type 0 where
  io : I → ConfigError I P
  parse : P → ConfigError I P
  missing_img_root : ConfigError I P
  missing_script_dir : ConfigError I P
  jpeg_quality_range : ℤ → ConfigError I P
  unknown_route_method : Text → ConfigError I P

-- `Path::is_absolute`, on Unix.
abbrev pub is_absolute : Text → Bool
is_absolute = starts_with (codes "/")

unfoldable pub compose_script_path : Text → Text → Text
unfolding trim_end_slashes
compose_script_path script_dir script =
    if is_absolute script then script else trim_end_slashes script_dir ++ (codes "/" ++ script)

-- `(1..=100).contains(&q)`.
unfoldable pub in_quality_range : ℤ → Bool
in_quality_range (pos q) = leb 1 q && leb q 100
in_quality_range (negsuc q) = false

unfoldable pub has_relative : List RouteSpec → Bool
has_relative [] = false
has_relative (r ∷ rs) = let rest = has_relative rs in not (is_absolute r.script) || rest

abbrev pub supported_methods : List Text
supported_methods =
    codes "GET" ∷ codes "HEAD" ∷ codes "POST" ∷ codes "PUT" ∷ codes "DELETE" ∷ codes "OPTIONS" ∷ []

unfoldable pub listed : Text → List Text → Bool
listed m [] = false
listed m (t ∷ ts) = let rest = listed m ts in m =t= t || rest

module _ (I P : Type 0) where
  unfoldable pub route_entry : Text → RouteSpec → Result (ConfigError I P) RouteEntry
  unfolding listed compose_script_path
  route_entry script_dir r =
      let method = to_ascii_uppercase r.method in
      if not (listed method supported_methods)
      then err (unknown_route_method r.method)
      else ok (record {
        method = method;
        route = r.route;
        script = compose_script_path script_dir r.script;
      })

  -- The first error stops the `collect`.
  unfoldable pub route_entries : Text → List RouteSpec → Result (ConfigError I P) (List RouteEntry)
  unfolding route_entry
  route_entries script_dir [] = ok []
  route_entries script_dir (r ∷ rs) = do
    entry ← route_entry script_dir r
    entries ← route_entries script_dir rs
    ok (entry ∷ entries)

unfoldable pub base : {R : Type 0} → Config R → ServerOverrides R
base c = record {
  serverport = c.network.port;
  imgroot = c.paths.img_root;
  scriptdir = c.paths.script_dir;
  initscript = c.paths.init_script;
  tmpdir = c.paths.tmp_dir;
  maxtmpage = c.paths.max_temp_file_age;
  docroot = c.paths.doc_root;
  wwwroute = c.paths.www_route;
  pathprefix = c.paths.prefix_as_path;
  jwtkey = c.tls_auth.jwt_secret;
  adminuser = c.tls_auth.admin_user;
  adminpasswd = c.tls_auth.admin_password;
  cache_dir = c.cache.dir;
  cache_size = c.cache.size;
  cache_nfiles = c.cache.n_files;
  memory_limit = c.limits.memory_limit;
  admission_mode = c.limits.admission_mode;
  tiles_memory_ratio = c.limits.tiles_memory_ratio;
  large_decode_threshold_bytes = c.limits.large_decode_threshold_bytes;
  maxpost = c.limits.max_post_size;
  thumbsize = c.limits.thumb_size;
  knorapath = c.knora.path;
  knoraport = c.knora.port;
  loglevel = c.logging.level;
  jpeg_quality = c.image.jpeg_quality;
  scaling_quality = record {
    jpeg = c.image.scaling_quality.jpeg;
    tiff = c.image.scaling_quality.tiff;
    png = c.image.scaling_quality.png;
    j2k = c.image.scaling_quality.j2k;
  };
  hostname = none;
  sslport = none;
}

module _ (I P : Type 0) {R : Type 0} where
  -- The rest of `resolve`, from `script_dir` on.
  unfoldable pub resolve_routes :
      List RouteSpec
      → ServerOverrides R
      → Result (ConfigError I P) (ServerOverrides R × List RouteEntry)
  unfolding has_relative route_entries
  resolve_routes routes effective =
      let script_dir = unwrap_or effective.scriptdir [] in
      if has_relative routes && is_empty script_dir
      then err missing_script_dir
      else (do entries ← route_entries I P script_dir routes; ok (effective, entries))

  unfoldable pub resolve_quality :
      List RouteSpec
      → ServerOverrides R
      → Result (ConfigError I P) (ServerOverrides R × List RouteEntry)
  unfolding in_quality_range resolve_routes
  resolve_quality routes effective = elim effective.jpeg_quality [
    | none ↦ resolve_routes routes effective
    | some q ↦
        if not (in_quality_range q)
        then err (jpeg_quality_range q)
        else resolve_routes routes effective
  ]

  unfoldable pub resolve :
      Config R → ServerOverrides R → Result (ConfigError I P) (ServerOverrides R × List RouteEntry)
  unfolding layered_over base resolve_quality
  resolve c cli =
      let effective = layered_over cli (base c) in
      elim effective.imgroot [
        | none ↦ err missing_img_root
        | some root ↦ resolve_quality c.routes effective
      ]

  unfoldable pub load :
      (Text → Result I Text)
      → (Text → Result P (Config R))
      → Text
      → Result (ConfigError I P) (Config R)
  load read_to_string from_str path = elim (read_to_string path) [
    | err e ↦ err (io e)
    | ok text ↦ elim (from_str text) [ err e ↦ err (parse e) | ok c ↦ ok c ]
  ]
