-- ===== src/Config/Layers.antt =====
-- The order in which layers are put together does not matter, only their precedence.
use sipi.Common.{Option, none, some, ◌≡◌, refl}
use sipi.Config.{
  ServerOverrides, ScalingQuality, or, layered_quality, layered_over, default_overrides,
}

or_assoc {ℓ} : {A : Type ℓ} (a b c : Option A) → or (or a b) c ≡ or a (or b c)
or_assoc none b c = refl
or_assoc (some a) b c = refl

or-none {ℓ} : {A : Type ℓ} (a : Option A) → or a none ≡ a
or-none none = refl
or-none (some a) = refl

or_self {ℓ} : {A : Type ℓ} (a : Option A) → or a a ≡ a
or_self none = refl
or_self (some a) = refl

layered_quality_assoc :
    (a b c : ScalingQuality)
    → layered_quality (layered_quality a b) c ≡ layered_quality a (layered_quality b c)
unfolding layered_quality
layered_quality_assoc a b c = λ i. record {
  jpeg = or_assoc a.jpeg b.jpeg c.jpeg i;
  tiff = or_assoc a.tiff b.tiff c.tiff i;
  png = or_assoc a.png b.png c.png i;
  j2k = or_assoc a.j2k b.j2k c.j2k i;
}

layered_quality_default :
    (a : ScalingQuality)
    → layered_quality a (record { jpeg = none; tiff = none; png = none; j2k = none }) ≡ a
unfolding layered_quality
layered_quality_default a = λ i. record {
  jpeg = or-none a.jpeg i;
  tiff = or-none a.tiff i;
  png = or-none a.png i;
  j2k = or-none a.j2k i;
}

layered_quality_self : (a : ScalingQuality) → layered_quality a a ≡ a
unfolding layered_quality
layered_quality_self a = λ i. record {
  jpeg = or_self a.jpeg i;
  tiff = or_self a.tiff i;
  png = or_self a.png i;
  j2k = or_self a.j2k i;
}

module _ {R : Type 0} where
  -- Three layers give the same configuration however they are grouped.
  pub layered_over_assoc :
      (a b c : ServerOverrides R)
      → layered_over (layered_over a b) c ≡ layered_over a (layered_over b c)
  unfolding layered_over
  layered_over_assoc a b c = λ i. record {
    serverport = or_assoc a.serverport b.serverport c.serverport i;
    imgroot = or_assoc a.imgroot b.imgroot c.imgroot i;
    scriptdir = or_assoc a.scriptdir b.scriptdir c.scriptdir i;
    initscript = or_assoc a.initscript b.initscript c.initscript i;
    tmpdir = or_assoc a.tmpdir b.tmpdir c.tmpdir i;
    maxtmpage = or_assoc a.maxtmpage b.maxtmpage c.maxtmpage i;
    docroot = or_assoc a.docroot b.docroot c.docroot i;
    wwwroute = or_assoc a.wwwroute b.wwwroute c.wwwroute i;
    pathprefix = or_assoc a.pathprefix b.pathprefix c.pathprefix i;
    jwtkey = or_assoc a.jwtkey b.jwtkey c.jwtkey i;
    adminuser = or_assoc a.adminuser b.adminuser c.adminuser i;
    adminpasswd = or_assoc a.adminpasswd b.adminpasswd c.adminpasswd i;
    cache_dir = or_assoc a.cache_dir b.cache_dir c.cache_dir i;
    cache_size = or_assoc a.cache_size b.cache_size c.cache_size i;
    cache_nfiles = or_assoc a.cache_nfiles b.cache_nfiles c.cache_nfiles i;
    memory_limit = or_assoc a.memory_limit b.memory_limit c.memory_limit i;
    admission_mode = or_assoc a.admission_mode b.admission_mode c.admission_mode i;
    tiles_memory_ratio = or_assoc a.tiles_memory_ratio b.tiles_memory_ratio c.tiles_memory_ratio i;
    large_decode_threshold_bytes =
        or_assoc a.large_decode_threshold_bytes b.large_decode_threshold_bytes
          c.large_decode_threshold_bytes i;
    maxpost = or_assoc a.maxpost b.maxpost c.maxpost i;
    thumbsize = or_assoc a.thumbsize b.thumbsize c.thumbsize i;
    knorapath = or_assoc a.knorapath b.knorapath c.knorapath i;
    knoraport = or_assoc a.knoraport b.knoraport c.knoraport i;
    loglevel = or_assoc a.loglevel b.loglevel c.loglevel i;
    jpeg_quality = or_assoc a.jpeg_quality b.jpeg_quality c.jpeg_quality i;
    scaling_quality = layered_quality_assoc a.scaling_quality b.scaling_quality c.scaling_quality i;
    hostname = or_assoc a.hostname b.hostname c.hostname i;
    sslport = or_assoc a.sslport b.sslport c.sslport i;
  }

  layered_over-default : (a : ServerOverrides R) → layered_over a default_overrides ≡ a
  unfolding layered_over layered_quality
  layered_over-default a = λ i. record {
    serverport = or-none a.serverport i;
    imgroot = or-none a.imgroot i;
    scriptdir = or-none a.scriptdir i;
    initscript = or-none a.initscript i;
    tmpdir = or-none a.tmpdir i;
    maxtmpage = or-none a.maxtmpage i;
    docroot = or-none a.docroot i;
    wwwroute = or-none a.wwwroute i;
    pathprefix = or-none a.pathprefix i;
    jwtkey = or-none a.jwtkey i;
    adminuser = or-none a.adminuser i;
    adminpasswd = or-none a.adminpasswd i;
    cache_dir = or-none a.cache_dir i;
    cache_size = or-none a.cache_size i;
    cache_nfiles = or-none a.cache_nfiles i;
    memory_limit = or-none a.memory_limit i;
    admission_mode = or-none a.admission_mode i;
    tiles_memory_ratio = or-none a.tiles_memory_ratio i;
    large_decode_threshold_bytes = or-none a.large_decode_threshold_bytes i;
    maxpost = or-none a.maxpost i;
    thumbsize = or-none a.thumbsize i;
    knorapath = or-none a.knorapath i;
    knoraport = or-none a.knoraport i;
    loglevel = or-none a.loglevel i;
    jpeg_quality = or-none a.jpeg_quality i;
    scaling_quality = layered_quality_default a.scaling_quality i;
    hostname = or-none a.hostname i;
    sslport = or-none a.sslport i;
  }

  layered_over_self : (a : ServerOverrides R) → layered_over a a ≡ a
  unfolding layered_over
  layered_over_self a = λ i. record {
    serverport = or_self a.serverport i;
    imgroot = or_self a.imgroot i;
    scriptdir = or_self a.scriptdir i;
    initscript = or_self a.initscript i;
    tmpdir = or_self a.tmpdir i;
    maxtmpage = or_self a.maxtmpage i;
    docroot = or_self a.docroot i;
    wwwroute = or_self a.wwwroute i;
    pathprefix = or_self a.pathprefix i;
    jwtkey = or_self a.jwtkey i;
    adminuser = or_self a.adminuser i;
    adminpasswd = or_self a.adminpasswd i;
    cache_dir = or_self a.cache_dir i;
    cache_size = or_self a.cache_size i;
    cache_nfiles = or_self a.cache_nfiles i;
    memory_limit = or_self a.memory_limit i;
    admission_mode = or_self a.admission_mode i;
    tiles_memory_ratio = or_self a.tiles_memory_ratio i;
    large_decode_threshold_bytes = or_self a.large_decode_threshold_bytes i;
    maxpost = or_self a.maxpost i;
    thumbsize = or_self a.thumbsize i;
    knorapath = or_self a.knorapath i;
    knoraport = or_self a.knoraport i;
    loglevel = or_self a.loglevel i;
    jpeg_quality = or_self a.jpeg_quality i;
    scaling_quality = layered_quality_self a.scaling_quality i;
    hostname = or_self a.hostname i;
    sslport = or_self a.sslport i;
  }

  -- A layer that sets nothing changes nothing, above or below another one, and a layer over itself
  -- is that layer.
  pub layered_over_neutral :
      (a : ServerOverrides R)
      → (layered_over a default_overrides ≡ a)
        × (layered_over default_overrides a ≡ a)
        × (layered_over a a ≡ a)
  unfolding layered_over layered_quality
  layered_over_neutral a = (layered_over-default a, refl, layered_over_self a)
