-- ===== src/Serve/Seam.antt =====
-- The engine's entry points, behind the parameter `Seam`, the operating system, and the texts that
-- are passed to both: server-rs/src/routes.rs.
use sipi.Common.{
  ℕ, [], ◌∷◌, ◌++◌, Bool, true, false, ◌||◌, Option, none, some, Text, codes, ◌=t=◌, and_then,
  if◌then◌else◌, take, ◌+◌, ◌==◌,
}
use sipi.Sink.{Files, Engine}
use sipi.Preflight.{SipiPermType, allow, login, clickthrough, kiosk, external, restrict, deny}
use sipi.Iiif.Domain.{IiifParams}
use sipi.Access.{Access, lookup}
use sipi.Info.Json.{Json}
use sipi.Info.Documents.{SipiImageDims}
use sipi.Info.Knora.{ImageEssentials}
use sipi.Serve.{has_nul}

pub record ImageRequest (F : Type 0) : Type 0 where
  pub resolved_path : Text
  pub prefix : Text
  pub identifier : Text
  pub client_ip : Text
  pub params : Option (IiifParams F)
  pub restricted_size : Option Text
  pub watermark_path : Option Text
  pub forwarded_proto : Text
  pub forwarded_host : Text
  pub request_uri : Text
  pub is_head : Bool

-- The engine's entry points; `none` for a status that reports a failure.
pub record Seam (F : Type 0) : Type 0 where
  pub sipi_serve_image : ImageRequest F → Engine
  pub sipi_serve_file : Text → Option Text → Engine
  pub mimetype : Text → Option Text
  pub image_dims : Text → Option SipiImageDims
  pub image_dims_and_essentials : Text → Option (SipiImageDims × Option ImageEssentials)

-- The operating system and the JSON library: the size of a file, the text of a file, `to_vec`,
-- `from_str`, `as_f64` and `v >= 0.0`.
pub record Host (R : Type 0) : Type 0 where
  pub files : Files
  pub size : Text → Option ℕ
  pub read_to_string : Text → Option Text
  pub to_vec : Json R → Text
  pub from_str : Text → Option (Json R)
  pub as_f64 : Json R → Option R
  pub non_negative : R → Bool

-- `CString::new`.
unfoldable pub c_string : Text → Option Text
unfolding has_nul
c_string s = if has_nul s then none else some s

abbrev pub is_restrict : SipiPermType → Bool
is_restrict restrict = true
is_restrict allow = false
is_restrict login = false
is_restrict clickthrough = false
is_restrict kiosk = false
is_restrict external = false
is_restrict deny = false

unfoldable pub access_kv_cstring : Access → Text → Option Text
unfolding lookup c_string
access_kv_cstring access key = and_then (lookup key access.kv) c_string

unfoldable pub restricted : Access → Text → Option Text
unfolding access_kv_cstring
restricted access key = if is_restrict access.permission then access_kv_cstring access key else none

-- The place of the last dot: `infile.rfind('.')`.
unfoldable pub rfind : ℕ → Text → Option ℕ
rfind c [] = none
rfind c (d ∷ s) = elim (rfind c s) [
  | some n ↦ some (n + 1)
  | none ↦ if d == c then some 0 else none
]

unfoldable pub sidecar_path : Text → Text
unfolding rfind
sidecar_path infile = elim (rfind b'.' infile) [
  | some n ↦ take n infile ++ codes ".info"
  | none ↦ infile ++ codes ".info"
]

abbrev pub is_image_mime : Text → Bool
is_image_mime m =
    m =t= codes "image/tiff"
    || m =t= codes "image/jpeg"
    || m =t= codes "image/png"
    || m =t= codes "image/jpx"
    || m =t= codes "image/jp2"
