-- ===== src/Admission/Classify.antt =====
-- The lane of a parsed request, and the check of that choice against the engine's estimate. It works
-- on what the parser emits (Iiif/Request).
pub mod Exact
use sipi.Common.{
  ℕ, ◌+◌, ◌-◌, ◌*◌, ◌%◌, Bool, true, false, Option, none, some, if◌then◌else◌, leb, ◌==◌, min,
  u64_mod, not,
}
use sipi.Iiif.Domain.{SizeKind, IiifParams}
use sipi.Iiif.Request.{
  RequestKind, iiif, info_json, knora_json, redirect, file_download, ParsedRequest,
}
use sipi.Admission.Pool.{AdmissionKind, tile, full, Admission}

abbrev pub bytes_per_pixel_proxy : ℕ
bytes_per_pixel_proxy = 4

-- `u64::saturating_mul`.
abbrev pub saturating_mul : ℕ → ℕ → ℕ
saturating_mul a b = min (a * b) (u64_mod - 1)

unfoldable pub upper_bound : SizeKind → ℕ → ℕ → Option ℕ
upper_bound SizeKind.pixels_xy nx ny = some (saturating_mul nx ny)
upper_bound SizeKind.maxdim nx ny = some (saturating_mul nx ny)
upper_bound SizeKind.pixels_x nx ny = some (saturating_mul nx nx)
upper_bound SizeKind.pixels_y nx ny = some (saturating_mul ny ny)
upper_bound SizeKind.full nx ny = none
upper_bound SizeKind.percents nx ny = none
upper_bound SizeKind.reduce nx ny = none
upper_bound SizeKind.undefined nx ny = none

module _ {F : Type 0} where
  pub output_pixel_upper_bound : IiifParams F → Option ℕ
  unfolding upper_bound
  output_pixel_upper_bound p = upper_bound p.size_kind p.size_nx p.size_ny

module _ {R S F : Type 0} where
  pub is_full_image : Admission R S → IiifParams F → Bool
  unfolding output_pixel_upper_bound
  is_full_image a p = elim (output_pixel_upper_bound p) [
    | some pixels ↦ leb a.large_decode_threshold_bytes (saturating_mul pixels bytes_per_pixel_proxy)
    | none ↦ true
  ]

  image_kind : Admission R S → Option (IiifParams F) → AdmissionKind
  image_kind a none = tile
  image_kind a (some p) = if is_full_image a p then full else tile

  kind_of : Admission R S → RequestKind → Option (IiifParams F) → AdmissionKind
  unfolding image_kind
  kind_of a iiif params = image_kind a params
  kind_of a info_json params = tile
  kind_of a knora_json params = tile
  kind_of a file_download params = tile
  kind_of a redirect params = tile

  pub classify : Admission R S → ParsedRequest F → AdmissionKind
  unfolding kind_of
  classify a parsed = kind_of a parsed.kind parsed.params

-- `shell_kind != engine_kind`.
abbrev differ : AdmissionKind → AdmissionKind → Bool
differ tile tile = false
differ tile full = true
differ full tile = true
differ full full = false

-- The engine's verdict on its own estimate.
abbrev pub engine_kind : ℕ → ℕ → AdmissionKind
engine_kind threshold estimate = if leb threshold estimate then full else tile

module _ {R S : Type 0} where
  pub record_classification : Admission R S → AdmissionKind → ℕ → Admission R S
  record_classification a shell_kind engine_estimate_bytes =
      if engine_estimate_bytes == 0
      then a
      else if differ shell_kind (engine_kind a.large_decode_threshold_bytes engine_estimate_bytes)
      then record a {
        classifier_disagreement_total = (a.classifier_disagreement_total + 1) % u64_mod;
      }
      else a
