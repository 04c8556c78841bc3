-- ===== src/Admission/Classify/Exact.antt =====
-- The classification of what the parser emits, and the check of it against the engine's estimate.
use sipi.Common.{
  ℕ, ◌+◌, ◌*◌, ◌%◌, ◌≤◌, ◌<◌, true, Option, none, some, ◌≡◌, ◌≢◌, ◌↔◌, ◌⊎◌, refl, arith, Text, ok,
  inl, inr, u64_mod, Option-cases,
}
use sipi.Iiif.Domain.{SizeKind, IiifParams, Floats}
use sipi.Iiif.Params.{dim_cap}
use sipi.Iiif.Request.{RequestKind, iiif, ParsedRequest, parse_request}
use sipi.Iiif.Request.Parameters.{parse_request-params}
use sipi.Admission.Pool.{AdmissionKind, tile, full, Admission}
use sipi.Admission.Classify.{
  classify, record_classification, upper_bound, is_full_image, output_pixel_upper_bound, kind_of,
  image_kind,
}
use native.Mathlib.Nat.{mul-le-mul}

-- An image of `w` by `h` pixels that the size parameters may ask for. Where they give one side, the other one
-- depends on the source: only images that are no longer there than the side given are meant.
abbrev pub Allows : SizeKind → ℕ → ℕ → ℕ → ℕ → Type 0
Allows SizeKind.pixels_xy nx ny w h = (w ≡ nx) × (h ≡ ny)
Allows SizeKind.maxdim nx ny w h = (w ≤ nx) × (h ≤ ny)
Allows SizeKind.pixels_x nx ny w h = (w ≡ nx) × (h ≤ w)
Allows SizeKind.pixels_y nx ny w h = (h ≡ ny) × (w ≤ h)
Allows _ nx ny w h = Unit

-- One of these images takes the threshold's bytes, at four bytes for a pixel.
abbrev pub IsLarge : ℕ → SizeKind → ℕ → ℕ → Type 0
IsLarge threshold k nx ny = (w : ℕ) × (h : ℕ) × Allows k nx ny w h × (threshold ≤ w * h * 4)

-- The bound of the code without saturation.
abbrev pixel_bound : SizeKind → ℕ → ℕ → Option ℕ
pixel_bound SizeKind.pixels_xy nx ny = some (nx * ny)
pixel_bound SizeKind.maxdim nx ny = some (nx * ny)
pixel_bound SizeKind.pixels_x nx ny = some (nx * nx)
pixel_bound SizeKind.pixels_y nx ny = some (ny * ny)
pixel_bound _ nx ny = none

abbrev Unbounded : ℕ → Option ℕ → Type 0
Unbounded threshold none = Unit
Unbounded threshold (some pixels) = threshold ≤ pixels * 4

area_bound : (t w h m n : ℕ) → w ≤ m → h ≤ n → t ≤ w * h * 4 → t ≤ m * n * 4
area_bound t w h m n a b c = omega (arith, mul-le-mul a b)

any_image : (t : ℕ) → t ≤ t * 1 * 4
any_image t = omega arith

Unbounded-IsLarge :
    (t : ℕ) (k : SizeKind) (nx ny : ℕ) → Unbounded t (pixel_bound k nx ny) → IsLarge t k nx ny
Unbounded-IsLarge t SizeKind.pixels_xy nx ny u = (nx, ny, (refl, refl), u)
Unbounded-IsLarge t SizeKind.maxdim nx ny u = (nx, ny, (omega arith, omega arith), u)
Unbounded-IsLarge t SizeKind.pixels_x nx ny u = (nx, nx, (refl, omega arith), u)
Unbounded-IsLarge t SizeKind.pixels_y nx ny u = (ny, ny, (refl, omega arith), u)
Unbounded-IsLarge t SizeKind.full nx ny u = (t, 1, tt, any_image t)
Unbounded-IsLarge t SizeKind.percents nx ny u = (t, 1, tt, any_image t)
Unbounded-IsLarge t SizeKind.reduce nx ny u = (t, 1, tt, any_image t)
Unbounded-IsLarge t SizeKind.undefined nx ny u = (t, 1, tt, any_image t)

IsLarge-Unbounded :
    (t : ℕ) (k : SizeKind) (nx ny : ℕ) → IsLarge t k nx ny → Unbounded t (pixel_bound k nx ny)
IsLarge-Unbounded t SizeKind.pixels_xy nx ny (w, h, (a, b), c) =
    area_bound t w h nx ny (omega (arith, a)) (omega (arith, b)) c
IsLarge-Unbounded t SizeKind.maxdim nx ny (w, h, (a, b), c) = area_bound t w h nx ny a b c
IsLarge-Unbounded t SizeKind.pixels_x nx ny (w, h, (a, b), c) =
    area_bound t w h nx nx (omega (arith, a)) (omega (arith, a, b)) c
IsLarge-Unbounded t SizeKind.pixels_y nx ny (w, h, (a, b), c) =
    area_bound t w h ny ny (omega (arith, a, b)) (omega (arith, a)) c
IsLarge-Unbounded t SizeKind.full nx ny l = tt
IsLarge-Unbounded t SizeKind.percents nx ny l = tt
IsLarge-Unbounded t SizeKind.reduce nx ny l = tt
IsLarge-Unbounded t SizeKind.undefined nx ny l = tt

square_cap : (n m : ℕ) → n ≤ dim_cap → m ≤ dim_cap → n * m * 4 < u64_mod
square_cap n m h g = omega (arith, mul-le-mul h g)

-- A size whose dimensions are capped saturates nothing.
bound_lem :
    (k : SizeKind) (nx ny : ℕ)
    → nx ≤ dim_cap
    → ny ≤ dim_cap
    → (upper_bound k nx ny ≡ pixel_bound k nx ny)
      × ((n : ℕ) → pixel_bound k nx ny ≡ some n → n * 4 < u64_mod)
unfolding upper_bound
bound_lem SizeKind.pixels_xy nx ny h g = ground (arith, square_cap nx ny h g)
bound_lem SizeKind.maxdim nx ny h g = ground (arith, square_cap nx ny h g)
bound_lem SizeKind.pixels_x nx ny h g = ground (arith, square_cap nx nx h h)
bound_lem SizeKind.pixels_y nx ny h g = ground (arith, square_cap ny ny g g)
bound_lem SizeKind.full nx ny h g = (refl, (λ n e. absurd (cc)))
bound_lem SizeKind.percents nx ny h g = (refl, (λ n e. absurd (cc)))
bound_lem SizeKind.reduce nx ny h g = (refl, (λ n e. absurd (cc)))
bound_lem SizeKind.undefined nx ny h g = (refl, (λ n e. absurd (cc)))

module _ {R S F : Type 0} (a : Admission R S) where
  is_full_image_lem :
      (p : IiifParams F)
      → p.size_nx ≤ dim_cap
      → p.size_ny ≤ dim_cap
      → (is_full_image a p ≡ true)
        ↔ Unbounded a.large_decode_threshold_bytes (pixel_bound p.size_kind p.size_nx p.size_ny)
  unfolding is_full_image output_pixel_upper_bound
  is_full_image_lem p h g =
      let (e, small) = bound_lem p.size_kind p.size_nx p.size_ny h g in
      elim (Option-cases (pixel_bound p.size_kind p.size_nx p.size_ny)) [
        | inl n ↦ rw (is_full_image, output_pixel_upper_bound, e, n) ((λ x. tt), (λ x. refl))
        | inr (pixels, s) ↦
            rw (is_full_image, output_pixel_upper_bound, e, s)
              (ground (arith, small pixels s), ground (arith, small pixels s))
      ]

  classify-image :
      (r : ParsedRequest F) (p : IiifParams F)
      → r.kind ≡ iiif
      → r.params ≡ some p
      → (classify a r ≡ full) ↔ (is_full_image a p ≡ true)
  unfolding classify kind_of image_kind
  classify-image r p k e = rw (k, e) (ground arith)

  classify-other : (r : ParsedRequest F) → r.kind ≢ iiif → classify a r ≡ tile
  unfolding classify kind_of
  classify-other r n = of_kind r.kind r.params n
    where
      of_kind :
          (k : RequestKind) (params : Option (IiifParams F)) → k ≢ iiif → kind_of a k params ≡ tile
      of_kind iiif params n = absurd (n refl)
      of_kind RequestKind.info_json params n = refl
      of_kind RequestKind.knora_json params n = refl
      of_kind RequestKind.redirect params n = refl
      of_kind RequestKind.file_download params n = refl

module _ {R S F : Type 0} (fl : Floats F) where
  -- Of the requests that the parser accepts, those go to the lane of the full images which ask for an image, and
  -- whose size may be that of an image of the threshold's bytes or more, at four bytes for a pixel: any image
  -- where the size is open, those within a box, and those with the side that is given that are no longer in
  -- the other direction.
  pub classify-parse_request :
      (a : Admission R S) (urldecode : Text → Text) (uri : Text) (r : ParsedRequest F)
      → parse_request fl urldecode uri ≡ ok r
      → (classify a r ≡ full) ↔ (
          (p : IiifParams F) × (r.params ≡ some p)
          × IsLarge a.large_decode_threshold_bytes p.size_kind p.size_nx p.size_ny)
  classify-parse_request a urldecode uri r h = elim (parse_request-params fl urldecode uri r h) [
    | inl (k, (p, e, nx, ny)) ↦
        let (there, back) = classify-image a r p k e in
        let (out, into) = is_full_image_lem a p nx ny in
        (
          (λ c. (p, e, Unbounded-IsLarge _ p.size_kind p.size_nx p.size_ny (out (there c)))),
          (λ (q, f, u).
              let same : q ≡ p = cc in
              back (into (IsLarge-Unbounded _ p.size_kind p.size_nx p.size_ny (rw same at u)))),
        )
    | inr (k, e) ↦ ((λ c. absurd (cc (c, classify-other a r k))), (λ (q, f, u). absurd (cc (f, e))))
  ]

module _ {R S : Type 0} where
  -- The engine's estimate, unless it is 0, is compared with the lane that was chosen: the counter
  -- of disagreements goes up by one, modulo 2 ^ 64, exactly where the estimate reaches the threshold
  -- and the lane was that of the tiles, or does not and the lane was that of the full images.
  pub record_classification-counts :
      (a : Admission R S) (shell_kind : AdmissionKind) (estimate : ℕ)
      → (((1 ≤ estimate)
            × (((shell_kind ≡ tile) × (a.large_decode_threshold_bytes ≤ estimate))
                ⊎ ((shell_kind ≡ full) × (estimate < a.large_decode_threshold_bytes))))
          × (record_classification a shell_kind estimate ≡ record a {
            classifier_disagreement_total = (a.classifier_disagreement_total + 1) % u64_mod;
          }))
        ⊎ (((estimate ≡ 0)
              ⊎ ((shell_kind ≡ tile) × (estimate < a.large_decode_threshold_bytes))
              ⊎ ((shell_kind ≡ full) × (a.large_decode_threshold_bytes ≤ estimate)))
            × (record_classification a shell_kind estimate ≡ a))
  unfolding record_classification
  record_classification-counts a tile estimate = ground arith
  record_classification-counts a full estimate = ground arith
