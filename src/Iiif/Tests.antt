-- ===== src/Iiif/Tests.antt =====
-- The parser on a URI of the source's own tests, with decimals for `f32` and a percent decoder.
use sipi.Common.{
  ℕ, zero, suc, ◌+◌, ◌-◌, ◌*◌, List, [], ◌∷◌, false, Option, none, some, Text, codes, ◌≡◌, refl,
  arith, ok, split_once, leb, ◌==◌, if◌then◌else◌, ◌&&◌, ◌/◌, is_ascii_digit, parse_usize,
}
use sipi.Iiif.Domain.{Floats, IiifParams, RegionKind, SizeKind, QualityKind, FormatKind}
use sipi.Iiif.Grammar.{
  consume_posint, consume_posfloat, is_valid_region, is_valid_size, is_valid_rotation,
  is_valid_qualform,
}
use sipi.Iiif.Grammar.Forms.{whole, full, width, Quality, Format}
use sipi.Iiif.Params.{parse_iiif_params}
use sipi.Iiif.Params.Images.{Image, IsImage}
use sipi.Iiif.Request.{iiif, ParsedRequest, parse_request}
use sipi.Iiif.Request.Uris.{KeepsPlain}

-- Decimal numbers in thousandths.
abbrev fraction_digits : ℕ → ℕ → Text → ℕ
fraction_digits zero unit s = 0
fraction_digits (suc n) unit [] = 0
fraction_digits (suc n) unit (c ∷ s) = (c - b'0') * unit + fraction_digits n (unit / 10) s

abbrev thousandths : Text → Option ℕ
thousandths s = elim (split_once b'.' s) [
  | none ↦ elim (parse_usize s) [ none ↦ none | some n ↦ some (n * 1000) ]
  | some (a, b) ↦ elim (parse_usize a) [
    | none ↦ none
    | some n ↦ some (n * 1000 + fraction_digits 3 100 b)
  ]
]

abbrev pub decimals : Floats ℕ
decimals = record { zero = 0; one = 1000; tiny = 0; le = leb; parse = thousandths }

-- Percent-decoding of two hexadecimal digits; other text stays.
abbrev hex : ℕ → Option ℕ
hex c =
    if is_ascii_digit c
    then some (c - b'0')
    else if leb b'a' c && leb c b'f'
    then some (c - b'a' + 10)
    else if leb b'A' c && leb c b'F'
    then some (c - b'A' + 10)
    else none

abbrev pub percent_decode : Text → Text
percent_decode [] = []
percent_decode (c ∷ []) = c ∷ []
percent_decode (c ∷ d ∷ []) = c ∷ d ∷ []
percent_decode (c ∷ d ∷ e ∷ s) =
    let plain = c ∷ percent_decode (d ∷ e ∷ s) in
    let rest = percent_decode s in
    if c == b'%'
    then elim (hex d) [
      | none ↦ plain
      | some x ↦ elim (hex e) [ none ↦ plain | some y ↦ (x * 16 + y) ∷ rest ]
    ]
    else plain

pub percent_decode-KeepsPlain : KeepsPlain percent_decode
percent_decode-KeepsPlain [] k = refl
percent_decode-KeepsPlain (c ∷ []) k = refl
percent_decode-KeepsPlain (c ∷ d ∷ []) k = refl
percent_decode-KeepsPlain (c ∷ d ∷ e ∷ s) k =
    ground (arith, percent_decode-KeepsPlain (d ∷ e ∷ s) k.1)

abbrev pub lena : Image
lena = record {
  region = full;
  size = record { mark = false; value = width (codes "200") };
  rotation = record { mark = false; value = whole (codes "0") };
  quality = Quality.default;
  format = Format.jpg;
}

pub lena-IsImage : IsImage lena
lena-IsImage = record {
  region = tt;
  size = ((λ e. cc), (refl, (refl, (refl, tt))));
  rotation = ((λ e. cc), (refl, tt));
}

abbrev pub lena_params : IiifParams ℕ
lena_params = record {
  region_kind = RegionKind.full;
  region = record { x = 0; y = 0; w = 0; h = 0 };
  size_kind = SizeKind.pixels_x;
  size_upscaling = false;
  size_percent = 0;
  size_reduce = 0;
  size_nx = 200;
  size_ny = 0;
  rotation = 0;
  rotation_mirror = false;
  quality_kind = QualityKind.default;
  format_kind = FormatKind.jpg;
}

abbrev pub lena_prefix : List Text
lena_prefix = codes "iiif" ∷ codes "2" ∷ []

abbrev pub lena_request : ParsedRequest ℕ
lena_request = record {
  kind = iiif;
  prefix = codes "iiif/2";
  identifier = codes "image.jpg";
  params = some lena_params;
}

pub parse_request_image_test :
    parse_request decimals percent_decode (codes "/iiif/2/image.jpg/full/200,/0/default.jpg")
    ≡ ok lena_request
unfolding parse_request parse_iiif_params parse_usize is_valid_region is_valid_size
    is_valid_rotation is_valid_qualform consume_posint consume_posfloat
parse_request_image_test = refl
