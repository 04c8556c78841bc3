-- ===== src/Iiif/Examples.antt =====
-- The parser's theorems at concrete requests.
use sipi.Common.{
  ℕ, List, [], ◌∷◌, ◌++◌, true, false, none, some, Text, codes, ◌≡◌, refl, arith, ok, parse_usize,
}
use sipi.Iiif.Grammar.{
  consume_posint, consume_posfloat, is_valid_region, is_valid_size, is_valid_rotation,
  is_valid_qualform,
}
use sipi.Iiif.Request.Sound.{image_sound}
use sipi.Iiif.Request.Redirects.{redirect_sound, redirect_to, all_filled}
use sipi.Iiif.Params.{parse_iiif_params}
use sipi.Iiif.Params.Images.{Image, IsImage, image_meaning}
use sipi.Iiif.Params.Sizes.{to_option}
use sipi.Iiif.Request.{
  info_json, redirect, ParsedRequest, parse_request, classify, image_parts_ok, pop_empty,
}
use sipi.Iiif.Request.Images.{image_parts, with_params}
use sipi.Iiif.Request.Uris.{parse_request-image}
use sipi.Iiif.Tests.{
  decimals, percent_decode, percent_decode-KeepsPlain, lena, lena-IsImage, lena_params, lena_prefix,
  lena_request,
}

parse_request-image_example :
    to_option
      (parse_request decimals percent_decode (codes "/iiif/2/image.jpg/full/200,/0/default.jpg"))
    ≡ with_params decimals lena_prefix (codes "image.jpg") (image_meaning decimals lena)
parse_request-image_example =
    parse_request-image decimals percent_decode lena_prefix (codes "image.jpg") lena
      percent_decode-KeepsPlain (omega arith) (omega arith) lena-IsImage

abbrev lena_parts : List Text
lena_parts =
    codes "iiif"
    ∷ codes "2"
    ∷ codes "image.jpg"
    ∷ codes "full"
    ∷ codes "200,"
    ∷ codes "0"
    ∷ codes "default.jpg"
    ∷ []

classify_image_test : classify decimals lena_parts ≡ ok lena_request
unfolding classify parse_iiif_params parse_usize is_valid_region is_valid_size is_valid_rotation
    is_valid_qualform consume_posint consume_posfloat
classify_image_test = refl

image_sound_example :
    (pre : List Text) × (id : Text) × (im : Image) × IsImage im
    × (lena_parts ≡ image_parts pre id im)
    × (with_params decimals pre id (image_meaning decimals im) ≡ some lena_request)
image_sound_example = image_sound decimals lena_parts lena_request classify_image_test refl

abbrev info_parts : List Text
info_parts = codes "iiif" ∷ codes "lena" ∷ codes "info.json" ∷ []

abbrev info_request : ParsedRequest ℕ
info_request = record {
  kind = info_json;
  prefix = codes "iiif";
  identifier = codes "lena";
  params = none;
}

classify_info_test : classify decimals info_parts ≡ ok info_request
unfolding classify is_valid_qualform
classify_info_test = refl

abbrev bare_parts : List Text
bare_parts = codes "iiif" ∷ codes "lena" ∷ []

abbrev bare_request : ParsedRequest ℕ
bare_request = record {
  kind = redirect;
  prefix = codes "iiif";
  identifier = codes "lena";
  params = none;
}

classify_bare_test : classify decimals bare_parts ≡ ok bare_request
unfolding classify is_valid_qualform is_valid_rotation consume_posfloat consume_posint
classify_bare_test = refl

redirect_sound_example :
    (front : List Text) × (id : Text) × (bare_parts ≡ front ++ id ∷ [])
    × (bare_request ≡ redirect_to decimals front id)
    × (all_filled front ≡ true)
    × (image_parts_ok bare_parts ≡ false)
    × (is_valid_qualform id ≡ false)
redirect_sound_example =
    redirect_sound decimals bare_parts bare_request (λ e. cc) classify_bare_test refl

two_segments : pop_empty (codes "iiif" ∷ codes "lena" ∷ []) ≡ codes "iiif" ∷ codes "lena" ∷ []
unfolding pop_empty
two_segments = refl

lena_params_test :
    parse_iiif_params decimals (codes "full") (codes "200,") (codes "0") (codes "default.jpg")
    ≡ ok lena_params
unfolding parse_iiif_params parse_usize
lena_params_test = refl
