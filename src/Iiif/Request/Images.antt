-- ===== src/Iiif/Request/Images.antt =====
-- Which requests are classified as image requests, and what they ask for.
use sipi.Common.{
  List, ◌∷◌, ◌++◌, true, Option, none, some, Text, ◌≡◌, refl, ap, ◌∙◌, arith, Result, ok, err,
  ◌>>=◌, length-append, join, split_once,
}
use sipi.Iiif.Domain.{ParseError, IiifParams, Floats}
use sipi.Iiif.Grammar.{is_valid_qualform}
use sipi.Iiif.Grammar.Forms.{
  region_text, rotation_text, Quality, Format, qualform_text, quality_text, format_text, size_text,
}
use sipi.Iiif.Grammar.Regions.{is_valid_region_complete}
use sipi.Iiif.Grammar.Sizes.{is_valid_size_complete}
use sipi.Iiif.Grammar.Tails.{is_valid_rotation_complete, is_valid_qualform_complete}
use sipi.Iiif.Params.{parse_iiif_params}
use sipi.Iiif.Params.Sizes.{to_option}
use sipi.Iiif.Params.Images.{Image, IsImage, segments, image_meaning, parse_iiif_params_lem}
use sipi.Iiif.Request.{
  iiif, ParsedRequest, from_end, image_parts_ok, as_image, classify_dotted, classify,
}
use sipi.Iiif.Request.Ends.{from_end-append, plain_prefix-append}

-- The parts of an image request: prefix, identifier, and the four segments.
abbrev pub image_parts : List Text → Text → Image → List Text
image_parts pre id im = pre ++ id ∷ segments im

pub split_once-qualform :
    (q : Quality) (f : Format)
    → split_once b'.' (qualform_text q f) ≡ some (quality_text q, format_text f)
split_once-qualform Quality.color Format.jpg = refl
split_once-qualform Quality.color Format.tif = refl
split_once-qualform Quality.color Format.png = refl
split_once-qualform Quality.color Format.jp2 = refl
split_once-qualform Quality.gray Format.jpg = refl
split_once-qualform Quality.gray Format.tif = refl
split_once-qualform Quality.gray Format.png = refl
split_once-qualform Quality.gray Format.jp2 = refl
split_once-qualform Quality.bitonal Format.jpg = refl
split_once-qualform Quality.bitonal Format.tif = refl
split_once-qualform Quality.bitonal Format.png = refl
split_once-qualform Quality.bitonal Format.jp2 = refl
split_once-qualform Quality.default Format.jpg = refl
split_once-qualform Quality.default Format.tif = refl
split_once-qualform Quality.default Format.png = refl
split_once-qualform Quality.default Format.jp2 = refl

image_parts-ok :
    (pre : List Text) (id : Text) (im : Image)
    → IsImage im
    → image_parts_ok (image_parts pre id im) ≡ true
unfolding image_parts_ok
image_parts-ok pre id im k = rw (from_end-append pre (id ∷ segments im) 3 2 refl) (
    rw (from_end-append pre (id ∷ segments im) 2 3 refl) (
      rw (from_end-append pre (id ∷ segments im) 1 4 refl) (
        rw (is_valid_region_complete im.region k.region) (
          rw (is_valid_size_complete im.size k.size) (
            rw (is_valid_rotation_complete im.rotation k.rotation)
              (rw (length-append pre (id ∷ segments im)) (ground arith)))))))

module _ {F : Type 0} (fl : Floats F) where
  abbrev pub with_params : List Text → Text → Option (IiifParams F) → Option (ParsedRequest F)
  with_params pre id none = none
  with_params pre id (some p) =
      some (record { kind = iiif; prefix = join b'/' pre; identifier = id; params = some p })

  abbrev requested :
      List Text → Text → Result ParseError (IiifParams F) → Result ParseError (ParsedRequest F)
  requested pre id m = m >>= λ params.
      ok (record { kind = iiif; prefix = join b'/' pre; identifier = id; params = some params })

  as_image-parts :
      (pre : List Text) (id : Text) (im : Image)
      → as_image fl (image_parts pre id im)
        ≡ requested pre id (
            parse_iiif_params fl
              (region_text im.region)
              (size_text im.size)
              (rotation_text im.rotation)
              (qualform_text im.quality im.format))
  unfolding as_image
  as_image-parts pre id im = rw (plain_prefix-append pre (id ∷ segments im) 5 refl) (
      rw (from_end-append pre (id ∷ segments im) 1 4 refl) (
        rw (from_end-append pre (id ∷ segments im) 2 3 refl) (
          rw (from_end-append pre (id ∷ segments im) 3 2 refl) (
            rw (from_end-append pre (id ∷ segments im) 4 1 refl)
              (rw (from_end-append pre (id ∷ segments im) 0 5 refl))))))

  requested_lem :
      (pre : List Text) (id : Text) (m : Result ParseError (IiifParams F))
      → to_option (requested pre id m) ≡ with_params pre id (to_option m)
  requested_lem pre id (ok p) = refl
  requested_lem pre id (err e) = refl

  pub classify-dotted :
      (parts : List Text) (body ext : Text)
      → split_once b'.' (from_end parts 1) ≡ some (body, ext)
      → classify fl parts ≡ classify_dotted fl parts body ext
  unfolding classify
  classify-dotted parts body ext e = rw (e, classify)

  dotted-image :
      (parts : List Text) (body ext : Text)
      → is_valid_qualform (from_end parts 1) ≡ true
      → image_parts_ok parts ≡ true
      → classify_dotted fl parts body ext ≡ as_image fl parts
  unfolding classify_dotted
  dotted-image parts body ext p q = rw (p, q, classify_dotted)

  -- The parts of a valid image request are classified as that request.
  pub classify-image_parts :
      (pre : List Text) (id : Text) (im : Image)
      → IsImage im
      → to_option (classify fl (image_parts pre id im)) ≡ with_params pre id (image_meaning fl im)
  classify-image_parts pre id im k =
      let last = from_end-append pre (id ∷ segments im) 4 1 refl in
      let valid = is_valid_qualform_complete im.quality im.format in
      ap to_option (
        classify-dotted (image_parts pre id im) (quality_text im.quality) (format_text im.format)
          (ap (split_once b'.') last ∙ split_once-qualform im.quality im.format)
        ∙ dotted-image (image_parts pre id im) (quality_text im.quality) (format_text im.format)
            (ap is_valid_qualform last ∙ valid) (image_parts-ok pre id im k)
        ∙ as_image-parts pre id im)
      ∙ requested_lem pre id _
      ∙ ap (with_params pre id) (parse_iiif_params_lem fl im k)
