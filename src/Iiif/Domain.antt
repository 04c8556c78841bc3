-- ===== src/Iiif/Domain.antt =====
-- The domain types of src/iiifparser/rust/domain.rs. `f32` is a type `F` that the parsers take
-- together with its operations.
use sipi.Common.{ℕ, Text, Bool, Option}

-- A parse failure with its message.
pub record ParseError : Type 0 where
  pub message : Text

pub data RegionKind : Type 0 where
  full square coords percents : RegionKind

pub data SizeKind : Type 0 where
  undefined full pixels_xy pixels_x pixels_y maxdim percents reduce : SizeKind

pub data QualityKind : Type 0 where
  default color gray bitonal : QualityKind

pub data FormatKind : Type 0 where
  unsupported jpg tif png gif jp2 pdf webp : FormatKind

-- The region's four numbers, `[f32; 4]`.
pub record Quad {ℓ} (F : Type ℓ) : Type ℓ where
  pub x : F
  pub y : F
  pub w : F
  pub h : F

pub record IiifParams (F : Type 0) : Type 0 where
  pub region_kind : RegionKind
  pub region : Quad F
  pub size_kind : SizeKind
  pub size_upscaling : Bool
  pub size_percent : F
  pub size_reduce : ℕ
  pub size_nx : ℕ
  pub size_ny : ℕ
  pub rotation : F
  pub rotation_mirror : Bool
  pub quality_kind : QualityKind
  pub format_kind : FormatKind

-- What the parsers use of `f32`: two literals, the threshold 1e-12, `<=`, and `str::parse`.
pub record Floats (F : Type 0) : Type 0 where
  pub zero : F
  pub one : F
  pub tiny : F
  pub le : F → F → Bool
  pub parse : Text → Option F
