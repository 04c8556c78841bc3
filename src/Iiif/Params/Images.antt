-- ===== src/Iiif/Params/Images.antt =====
-- An image request's four segments as abstract syntax, and what `parse_iiif_params` makes of them.
use sipi.Common.{
  List, [], ◌∷◌, Bool, Option, none, some, Text, ◌≡◌, refl, ◌∙◌, Result, ok, err, ◌>>=◌,
}
use sipi.Iiif.Domain.{ParseError, IiifParams, RegionKind, Quad, Floats}
use sipi.Iiif.Grammar.Forms.{
  Posfloat, IsPosfloat, Region, region_text, IsRegion, Marked, rotation_text, Quality, Format,
  qualform_text, SizeForm, IsSizeForm, size_text,
}
use sipi.Iiif.Params.{
  SizeParts, parse_region, parse_size, parse_rotation, parse_quality_format, parse_iiif_params,
}
use sipi.Iiif.Params.Sizes.{to_option, size_meaning, parse_size_lem}
use sipi.Iiif.Params.Regions.{
  region_meaning, parse_region_lem, rotation_meaning, parse_rotation_lem, quality_kind, format_kind,
  parse_quality_format_lem,
}

pub record Image : Type 0 where
  pub region : Region
  pub size : Marked SizeForm
  pub rotation : Marked Posfloat
  pub quality : Quality
  pub format : Format

pub record IsImage (im : Image) : Type 0 where
  pub region : IsRegion im.region
  pub size : IsSizeForm im.size.value
  pub rotation : IsPosfloat im.rotation.value

-- The four segments behind the identifier.
abbrev pub segments : Image → List Text
segments im =
    region_text im.region
    ∷ size_text im.size
    ∷ rotation_text im.rotation
    ∷ qualform_text im.quality im.format
    ∷ []

module _ {F : Type 0} (fl : Floats F) where
  abbrev pub assemble :
      Image
      → Option (RegionKind × Quad F)
      → Option (SizeParts F)
      → Option (Bool × F)
      → Option (IiifParams F)
  assemble im none s r = none
  assemble im (some q) none r = none
  assemble im (some q) (some sz) none = none
  assemble im (some (k, q)) (some sz) (some (mirror, angle)) = some (record {
    region_kind = k;
    region = q;
    size_kind = sz.kind;
    size_upscaling = sz.upscaling;
    size_percent = sz.percent;
    size_reduce = sz.reduce;
    size_nx = sz.nx;
    size_ny = sz.ny;
    rotation = angle;
    rotation_mirror = mirror;
    quality_kind = quality_kind im.quality;
    format_kind = format_kind im.format;
  })

  -- The parameters that an image request asks for; `none` where a dimension is 0 or too large, or
  -- `f32` cannot read a number.
  abbrev pub image_meaning : Image → Option (IiifParams F)
  image_meaning im =
      assemble im (region_meaning fl im.region) (size_meaning fl im.size.mark im.size.value)
        (rotation_meaning fl im.rotation)

  assemble_lem :
      (im : Image) (r : Result ParseError (RegionKind × Quad F))
      (s : Result ParseError (SizeParts F)) (t : Result ParseError (Bool × F))
      → to_option (
          r >>= λ r'. s >>= λ sz. t >>= λ rot.
          parse_quality_format (qualform_text im.quality im.format) >>= λ qf. ok (record {
            region_kind = r'.0;
            region = r'.1;
            size_kind = sz.kind;
            size_upscaling = sz.upscaling;
            size_percent = sz.percent;
            size_reduce = sz.reduce;
            size_nx = sz.nx;
            size_ny = sz.ny;
            rotation = rot.1;
            rotation_mirror = rot.0;
            quality_kind = qf.0;
            format_kind = qf.1;
          }))
        ≡ assemble im (to_option r) (to_option s) (to_option t)
  assemble_lem im (err e) s t = refl
  assemble_lem im (ok q) (err e) t = refl
  assemble_lem im (ok q) (ok sz) (err e) = refl
  assemble_lem im (ok q) (ok sz) (ok rot) = rw (parse_quality_format_lem im.quality im.format) refl

  -- `parse_iiif_params` gives the segments of every valid image request their meaning.
  pub parse_iiif_params_lem :
      (im : Image)
      → IsImage im
      → to_option (
          parse_iiif_params fl
            (region_text im.region)
            (size_text im.size)
            (rotation_text im.rotation)
            (qualform_text im.quality im.format))
        ≡ image_meaning im
  unfolding parse_iiif_params
  parse_iiif_params_lem im k =
      assemble_lem im (parse_region fl (region_text im.region)) (parse_size fl (size_text im.size))
        (parse_rotation fl (rotation_text im.rotation))
      ∙ (λ i.
          assemble im (parse_region_lem fl im.region k.region i)
            (parse_size_lem fl im.size k.size i) (parse_rotation_lem fl im.rotation k.rotation i))
