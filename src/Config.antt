-- ===== src/Config.antt =====
-- The overrides of the configuration, their layering and their debug output:
-- server-rs/src/config.rs. `f64` is a type `R`.
pub mod Layers
pub mod Secrets
pub mod Lua
pub mod Tests
use sipi.Common.{ℕ, ℤ, List, [], ◌∷◌, Bool, Option, none, some, Text, codes, is_some, if◌then◌else◌}

pub record ScalingQuality : Type 0 where
  pub jpeg : Option Text
  pub tiff : Option Text
  pub png : Option Text
  pub j2k : Option Text

pub record ServerOverrides (R : Type 0) : Type 0 where
  pub serverport : Option ℕ
  pub imgroot : Option Text
  pub scriptdir : Option Text
  pub initscript : Option Text
  pub tmpdir : Option Text
  pub maxtmpage : Option ℤ
  pub docroot : Option Text
  pub wwwroute : Option Text
  pub pathprefix : Option Bool
  pub jwtkey : Option Text
  pub adminuser : Option Text
  pub adminpasswd : Option Text
  pub cache_dir : Option Text
  pub cache_size : Option Text
  pub cache_nfiles : Option ℕ
  pub memory_limit : Option Text
  pub admission_mode : Option Text
  pub tiles_memory_ratio : Option R
  pub large_decode_threshold_bytes : Option ℕ
  pub maxpost : Option Text
  pub thumbsize : Option Text
  pub knorapath : Option Text
  pub knoraport : Option Text
  pub loglevel : Option Text
  pub jpeg_quality : Option ℤ
  pub scaling_quality : ScalingQuality
  pub hostname : Option Text
  pub sslport : Option ℤ

-- `Option::or`.
abbrev pub or {ℓ} : {A : Type ℓ} → Option A → Option A → Option A
or none b = b
or (some a) b = some a

unfoldable pub layered_quality : ScalingQuality → ScalingQuality → ScalingQuality
layered_quality a b = record {
  jpeg = or a.jpeg b.jpeg;
  tiff = or a.tiff b.tiff;
  png = or a.png b.png;
  j2k = or a.j2k b.j2k;
}

module _ {R : Type 0} where
  unfoldable pub layered_over : ServerOverrides R → ServerOverrides R → ServerOverrides R
  unfolding layered_quality
  layered_over a base = record {
    serverport = or a.serverport base.serverport;
    imgroot = or a.imgroot base.imgroot;
    scriptdir = or a.scriptdir base.scriptdir;
    initscript = or a.initscript base.initscript;
    tmpdir = or a.tmpdir base.tmpdir;
    maxtmpage = or a.maxtmpage base.maxtmpage;
    docroot = or a.docroot base.docroot;
    wwwroute = or a.wwwroute base.wwwroute;
    pathprefix = or a.pathprefix base.pathprefix;
    jwtkey = or a.jwtkey base.jwtkey;
    adminuser = or a.adminuser base.adminuser;
    adminpasswd = or a.adminpasswd base.adminpasswd;
    cache_dir = or a.cache_dir base.cache_dir;
    cache_size = or a.cache_size base.cache_size;
    cache_nfiles = or a.cache_nfiles base.cache_nfiles;
    memory_limit = or a.memory_limit base.memory_limit;
    admission_mode = or a.admission_mode base.admission_mode;
    tiles_memory_ratio = or a.tiles_memory_ratio base.tiles_memory_ratio;
    large_decode_threshold_bytes =
        or a.large_decode_threshold_bytes base.large_decode_threshold_bytes;
    maxpost = or a.maxpost base.maxpost;
    thumbsize = or a.thumbsize base.thumbsize;
    knorapath = or a.knorapath base.knorapath;
    knoraport = or a.knoraport base.knoraport;
    loglevel = or a.loglevel base.loglevel;
    jpeg_quality = or a.jpeg_quality base.jpeg_quality;
    scaling_quality = layered_quality a.scaling_quality base.scaling_quality;
    hostname = or a.hostname base.hostname;
    sslport = or a.sslport base.sslport;
  }

  -- `ServerOverrides::default()`.
  abbrev pub default_overrides : ServerOverrides R
  default_overrides = record {
    serverport = none;
    imgroot = none;
    scriptdir = none;
    initscript = none;
    tmpdir = none;
    maxtmpage = none;
    docroot = none;
    wwwroute = none;
    pathprefix = none;
    jwtkey = none;
    adminuser = none;
    adminpasswd = none;
    cache_dir = none;
    cache_size = none;
    cache_nfiles = none;
    memory_limit = none;
    admission_mode = none;
    tiles_memory_ratio = none;
    large_decode_threshold_bytes = none;
    maxpost = none;
    thumbsize = none;
    knorapath = none;
    knoraport = none;
    loglevel = none;
    jpeg_quality = none;
    scaling_quality = record { jpeg = none; tiff = none; png = none; j2k = none };
    hostname = none;
    sslport = none;
  }

-- What the debug output shows of a field: its value, or the text of `redact`.
pub data Shown (R : Type 0) : Type 0 where
  text : Option Text → Shown R
  number : Option ℕ → Shown R
  integer : Option ℤ → Shown R
  flag : Option Bool → Shown R
  ratio : Option R → Shown R
  quality : ScalingQuality → Shown R
  redacted : Text → Shown R

unfoldable pub redact : Option Text → Text
redact s = if is_some s then codes "Some([redacted])" else codes "None"

-- The fields that `fmt` hands to the formatter, in their order.
unfoldable pub fmt : {R : Type 0} → ServerOverrides R → List (Text × Shown R)
unfolding redact
fmt o =
    (codes "serverport", number o.serverport)
    ∷ (codes "imgroot", text o.imgroot)
    ∷ (codes "scriptdir", text o.scriptdir)
    ∷ (codes "initscript", text o.initscript)
    ∷ (codes "tmpdir", text o.tmpdir)
    ∷ (codes "maxtmpage", integer o.maxtmpage)
    ∷ (codes "docroot", text o.docroot)
    ∷ (codes "wwwroute", text o.wwwroute)
    ∷ (codes "pathprefix", flag o.pathprefix)
    ∷ (codes "jwtkey", redacted (redact o.jwtkey))
    ∷ (codes "adminuser", text o.adminuser)
    ∷ (codes "adminpasswd", redacted (redact o.adminpasswd))
    ∷ (codes "cache_dir", text o.cache_dir)
    ∷ (codes "cache_size", text o.cache_size)
    ∷ (codes "cache_nfiles", number o.cache_nfiles)
    ∷ (codes "memory_limit", text o.memory_limit)
    ∷ (codes "admission_mode", text o.admission_mode)
    ∷ (codes "tiles_memory_ratio", ratio o.tiles_memory_ratio)
    ∷ (codes "large_decode_threshold_bytes", number o.large_decode_threshold_bytes)
    ∷ (codes "maxpost", text o.maxpost)
    ∷ (codes "thumbsize", text o.thumbsize)
    ∷ (codes "knorapath", text o.knorapath)
    ∷ (codes "knoraport", text o.knoraport)
    ∷ (codes "loglevel", text o.loglevel)
    ∷ (codes "jpeg_quality", integer o.jpeg_quality)
    ∷ (codes "scaling_quality", quality o.scaling_quality)
    ∷ (codes "hostname", text o.hostname)
    ∷ (codes "sslport", integer o.sslport)
    ∷ []
