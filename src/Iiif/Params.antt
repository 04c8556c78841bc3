-- ===== src/Iiif/Params.antt =====
-- The component parsers of src/iiifparser/rust/parse.rs, which turn the four path segments into
-- `IiifParams`. The error texts are those of the source.
pub mod Digits
pub mod Sizes
pub mod Regions
pub mod Images
pub mod Capped
use sipi.Common.{
  ℕ, List, [], ◌∷◌, ◌++◌, Bool, true, false, ◌||◌, Option, none, some, Text, codes, is_empty, ◌=t=◌,
  strip_prefix, split, split_once, if◌then◌else◌, leb, ltb, ◌==◌, Result, ok, err, ◌>>=◌, ok_or,
  parse_usize, parse_i32, ℤ, pos, negsuc, length, min,
}
use sipi.Iiif.Domain.{
  ParseError, RegionKind, SizeKind, QualityKind, FormatKind, Quad, IiifParams, Floats,
}

abbrev fail {ℓ} : {A : Type ℓ} → Text → Result ParseError A
fail m = err (record { message = m })

-- `"{before}\"{s}\"{after}"`.
abbrev quoting : Text → Text → Text → Text
quoting before s after = before ++ (b'"' ∷ s) ++ (b'"' ∷ after)

abbrev region_error : Text → Text
region_error s = quoting (codes "IIIF Error reading Region parameter ") s []

module _ {F : Type 0} (fl : Floats F) where
  -- The loop over the four numbers, on the list that the length test has passed.
  pub parse_coords : Text → List Text → Result ParseError (Quad F)
  parse_coords s (a ∷ b ∷ c ∷ d ∷ []) = do
    x ← ok_or (fl.parse a) (record { message = region_error s })
    y ← ok_or (fl.parse b) (record { message = region_error s })
    w ← ok_or (fl.parse c) (record { message = region_error s })
    h ← ok_or (fl.parse d) (record { message = region_error s })
    ok (record { x = x; y = y; w = w; h = h })
  parse_coords s _ = fail (region_error s)

  abbrev no_region : Quad F
  no_region = record { x = fl.zero; y = fl.zero; w = fl.zero; h = fl.zero }

  pub parse_region : Text → Result ParseError (RegionKind × Quad F)
  unfolding parse_coords
  parse_region s =
      if s =t= codes "full"
      then ok (RegionKind.full, no_region)
      else if s =t= codes "square"
      then ok (RegionKind.square, no_region)
      else elim (strip_prefix (codes "pct:") s) [
        | some b ↦ do coords ← parse_coords s (split b',' b); ok (RegionKind.percents, coords)
        | none ↦ do coords ← parse_coords s (split b',' s); ok (RegionKind.coords, coords)
      ]

pub record SizeParts (F : Type 0) : Type 0 where
  pub kind : SizeKind
  pub upscaling : Bool
  pub percent : F
  pub reduce : ℕ
  pub nx : ℕ
  pub ny : ℕ

abbrev size_error : Text → Text
size_error s = quoting (codes "Invalid IIIF size parameter: ") s []

abbrev dim_error : Text → Text
dim_error s = quoting (codes "Could not parse IIIF size parameter: ") s []

-- A negative value is clamped to 0.
abbrev clamp_reduce : ℤ → ℕ
clamp_reduce (pos n) = n
clamp_reduce (negsuc n) = 0

-- The hard cap on the requested dimensions.
abbrev pub dim_cap : ℕ
dim_cap = 32000

abbrev parse_dim : Text → Text → Result ParseError ℕ
parse_dim s v = ok_or (parse_usize v) (record { message = dim_error s })

module _ {F : Type 0} (fl : Floats F) where
  -- `,h`
  pub parse_height : Text → SizeParts F → Text → Result ParseError (SizeParts F)
  parse_height s parts height_str = do
    ny ← parse_dim s height_str
    if ny == 0
        then fail (quoting (codes "IIIF size height cannot be zero: ") s [])
        else ok (record parts {
          kind = SizeKind.pixels_y;
          nx = min parts.nx dim_cap;
          ny = min ny dim_cap;
        })

  -- `w,`
  pub parse_width : Text → SizeParts F → Text → Result ParseError (SizeParts F)
  parse_width s parts width_str = do
    nx ← parse_dim s width_str
    if nx == 0
        then fail (quoting (codes "IIIF size width cannot be zero: ") s [])
        else ok (record parts {
          kind = SizeKind.pixels_x;
          nx = min nx dim_cap;
          ny = min parts.ny dim_cap;
        })

  -- `w,h`
  pub parse_both : Text → Bool → SizeParts F → Text → Text → Result ParseError (SizeParts F)
  parse_both s exclamation parts width_str height_str = do
    nx ← parse_dim s width_str
    ny ← parse_dim s height_str
    if nx == 0 || ny == 0
        then fail (quoting (codes "IIIF size cannot be zero: ") s [])
        else ok (record parts {
          kind = if exclamation then SizeKind.maxdim else SizeKind.pixels_xy;
          nx = min nx dim_cap;
          ny = min ny dim_cap;
        })

  -- The part behind the prefixes that holds a comma; both dimensions are capped at the end.
  pub parse_pixels : Text → Bool → SizeParts F → Text → Text → Result ParseError (SizeParts F)
  unfolding parse_height parse_width parse_both
  parse_pixels s exclamation parts width_str height_str =
      if is_empty width_str
      then (if exclamation then fail (size_error s) else parse_height s parts height_str)
      else if is_empty height_str
      then parse_width s parts width_str
      else parse_both s exclamation parts width_str height_str

  -- What follows the optional `^` and `!`.
  pub parse_size_body : Text → Bool → SizeParts F → Text → Result ParseError (SizeParts F)
  unfolding parse_pixels
  parse_size_body s exclamation parts rest =
      if rest =t= codes "max" || is_empty rest
      then ok (record parts { kind = SizeKind.full })
      else elim (strip_prefix (codes "pct:") rest) [
        | some p ↦
            if exclamation
            then fail (size_error s)
            else ok_or (fl.parse p) (record { message = size_error s }) >>= λ pct.
                ok (record parts {
                  kind = SizeKind.percents;
                  percent = if fl.le pct fl.tiny then fl.one else pct;
                })
        | none ↦ elim (strip_prefix (codes "red:") rest) [
          | some p ↦
              if exclamation
              then fail (size_error s)
              else ok_or (parse_i32 p) (record { message = size_error s }) >>= λ red.
                  ok (record parts { kind = SizeKind.reduce; reduce = clamp_reduce red })
          | none ↦ elim (split_once b',' rest) [
            | none ↦ fail (dim_error s)
            | some (w, h) ↦ parse_pixels s exclamation parts w h
          ]
        ]
      ]

  abbrev no_size : Bool → SizeParts F
  no_size up = record {
    kind = SizeKind.undefined;
    upscaling = up;
    percent = fl.zero;
    reduce = 0;
    nx = 0;
    ny = 0;
  }

  -- The optional `!`.
  pub parse_bang : Text → SizeParts F → Text → Result ParseError (SizeParts F)
  unfolding parse_size_body
  parse_bang s parts rest = elim (strip_prefix (codes "!") rest) [
    | some r ↦ parse_size_body s true parts r
    | none ↦ parse_size_body s false parts rest
  ]

  pub parse_size : Text → Result ParseError (SizeParts F)
  unfolding parse_bang
  parse_size s = elim (strip_prefix (codes "^") s) [
    | some r ↦ parse_bang s (no_size true) r
    | none ↦ parse_bang s (no_size false) s
  ]

  -- The optional `!` and the number.
  pub parse_rotation : Text → Result ParseError (Bool × F)
  parse_rotation s = if is_empty s then ok (false, fl.zero) else elim (strip_prefix (codes "!") s) [
    | some r ↦
        ok_or (fl.parse r) (record { message = rotation_error }) >>= λ angle. ok (true, angle)
    | none ↦ ok_or (fl.parse s) (record { message = rotation_error }) >>= λ angle. ok (false, angle)
  ]
    where
      rotation_error : Text
      rotation_error = codes "Could not parse IIIF rotation parameter: " ++ s

pub parse_quality : Text → Result ParseError QualityKind
parse_quality q =
    if q =t= codes "default"
    then ok QualityKind.default
    else if q =t= codes "color"
    then ok QualityKind.color
    else if q =t= codes "gray"
    then ok QualityKind.gray
    else if q =t= codes "bitonal"
    then ok QualityKind.bitonal
    else fail (quoting (codes "IIIF Error reading Quality parameter ") q (codes " !"))

pub parse_format : Text → FormatKind
parse_format f =
    if f =t= codes "jpg"
    then FormatKind.jpg
    else if f =t= codes "tif"
    then FormatKind.tif
    else if f =t= codes "png"
    then FormatKind.png
    else if f =t= codes "gif"
    then FormatKind.gif
    else if f =t= codes "jp2"
    then FormatKind.jp2
    else if f =t= codes "pdf"
    then FormatKind.pdf
    else if f =t= codes "webp"
    then FormatKind.webp
    else FormatKind.unsupported

pub parse_quality_format : Text → Result ParseError (QualityKind × FormatKind)
unfolding parse_quality parse_format
parse_quality_format s =
    if is_empty s then ok (QualityKind.default, FormatKind.jpg) else elim (split_once b'.' s) [
      | none ↦ fail (quoting (codes "IIIF Error reading Quality+Format parameter ") s (codes " !"))
      | some (q, f) ↦ parse_quality q >>= λ quality. ok (quality, parse_format f)
    ]

module _ {F : Type 0} (fl : Floats F) where
  unfoldable pub parse_iiif_params : Text → Text → Text → Text → Result ParseError (IiifParams F)
  unfolding parse_region parse_size parse_rotation parse_quality_format
  parse_iiif_params region size rotation qualform = parse_region fl region >>= λ r.
      parse_size fl size >>= λ sz. parse_rotation fl rotation >>= λ rot.
      parse_quality_format qualform >>= λ qf. ok (record {
        region_kind = r.0;
        region = r.1;
        size_kind = sz.kind;
        size_upscaling = sz.upscaling;
        size_percent = sz.percent;
        size_reduce = sz.reduce;
        size_nx = sz.nx;
        size_ny = sz.ny;
        rotation = rot.1;
        rotation_mirror = rot.0;
        quality_kind = qf.0;
        format_kind = qf.1;
      })
