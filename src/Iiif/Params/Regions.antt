-- ===== src/Iiif/Params/Regions.antt =====
-- What `parse_region`, `parse_rotation` and `parse_quality_format` make of the valid forms.
use sipi.Common.{
  ℕ, [], ◌∷◌, ◌++◌, Bool, false, Option, none, some, Text, ◌≡◌, ◌≢◌, refl, ap, ◌∙◌, sym, inl, inr,
  arith, All-append, Result, ok, err, ◌>>=◌, Bool-cases, is_ascii_digit, split, split-append,
  split-Lacks, Lacks,
}
use sipi.Iiif.Domain.{ParseError, RegionKind, QualityKind, FormatKind, Quad, Floats}
use sipi.Iiif.Grammar.Forms.{
  Posfloat, whole, fraction, posfloat, IsPosfloat, Region, full, square, coords, percents,
  region_text, IsRegion, Marked, rotation_text, Quality, Format, qualform_text,
}
use sipi.Iiif.Grammar.Tails.{posfloat-no-bang}
use sipi.Iiif.Params.{parse_coords, parse_region, no_region, parse_rotation, parse_quality_format}
use sipi.Iiif.Params.Sizes.{to_option, digits-Lacks}

pub posfloat-Lacks :
    (c : ℕ) (p : Posfloat)
    → is_ascii_digit c ≡ false
    → c ≢ b'.'
    → IsPosfloat p
    → Lacks c (posfloat p)
posfloat-Lacks c (whole a) h d k = digits-Lacks c a h k.1
posfloat-Lacks c (fraction a b) h d k =
    All-append _ a (b'.' ∷ b) (digits-Lacks c a h k.0.1)
      ((λ e. d (sym e)), digits-Lacks c b h k.1.1)

split-four :
    (a b c d : Text)
    → Lacks b',' a
    → Lacks b',' b
    → Lacks b',' c
    → Lacks b',' d
    → split b',' (a ++ (b',' ∷ (b ++ (b',' ∷ (c ++ (b',' ∷ d)))))) ≡ a ∷ b ∷ c ∷ d ∷ []
split-four a b c d ka kb kc kd =
    split-append b',' a (b ++ (b',' ∷ (c ++ (b',' ∷ d)))) ka
    ∙ ap (◌∷◌ a) (
        split-append b',' b (c ++ (b',' ∷ d)) kb
        ∙ ap (◌∷◌ b) (split-append b',' c d kc ∙ ap (◌∷◌ c) (split-Lacks b',' d kd)))

module _ {F : Type 0} (fl : Floats F) where
  abbrev pub quad : Text → Text → Text → Text → Option (Quad F)
  quad a b c d = elim (fl.parse a) [
    | none ↦ none
    | some x ↦ elim (fl.parse b) [
      | none ↦ none
      | some y ↦ elim (fl.parse c) [
        | none ↦ none
        | some w ↦ elim (fl.parse d) [
          | none ↦ none
          | some h ↦ some (record { x = x; y = y; w = w; h = h })
        ]
      ]
    ]
  ]

  abbrev with_kind : RegionKind → Option (Quad F) → Option (RegionKind × Quad F)
  with_kind k none = none
  with_kind k (some q) = some (k, q)

  with_kind_lem :
      (k : RegionKind) (m : Result ParseError (Quad F)) (q : Option (Quad F))
      → to_option m ≡ q
      → to_option (m >>= λ c. ok (k, c)) ≡ with_kind k q
  with_kind_lem k (ok c) q e = ground arith
  with_kind_lem k (err m) q e = ground arith

  -- What a region form asks for; `none` only where `f32` cannot read a number.
  abbrev pub region_meaning : Region → Option (RegionKind × Quad F)
  region_meaning full = some (RegionKind.full, no_region fl)
  region_meaning square = some (RegionKind.square, no_region fl)
  region_meaning (coords a b c d) = with_kind RegionKind.coords (quad a b c d)
  region_meaning (percents a b c d) =
      with_kind RegionKind.percents (quad (posfloat a) (posfloat b) (posfloat c) (posfloat d))

  parse_coords_lem :
      (s a b c d : Text) → to_option (parse_coords fl s (a ∷ b ∷ c ∷ d ∷ [])) ≡ quad a b c d
  unfolding parse_coords
  parse_coords_lem s a b c d = ground arith

  -- `parse_region` gives each valid region its meaning.
  pub parse_region_lem :
      (r : Region) → IsRegion r → to_option (parse_region fl (region_text r)) ≡ region_meaning r
  unfolding parse_region
  parse_region_lem full k = refl
  parse_region_lem square k = refl
  parse_region_lem (coords [] b c d) k = absurd (k.0.0 refl)
  parse_region_lem (coords (x ∷ a) b c d) (ka, kb, kc, kd) = ground (
    arith,
    split-four (x ∷ a) b c d (digits-Lacks b',' (x ∷ a) refl ka.1) (digits-Lacks b',' b refl kb.1)
        (digits-Lacks b',' c refl kc.1) (digits-Lacks b',' d refl kd.1),
    parse_coords_lem (region_text (coords (x ∷ a) b c d)) (x ∷ a) b c d,
  )
  parse_region_lem (percents p q u v) (kp, kq, ku, kv) = with_kind_lem RegionKind.percents _ _ (
      ap to_option (
        ap (parse_coords fl (region_text (percents p q u v))) (
          split-four (posfloat p) (posfloat q) (posfloat u) (posfloat v) (comma p kp) (comma q kq)
            (comma u ku) (comma v kv)))
      ∙ parse_coords_lem (region_text (percents p q u v)) (posfloat p) (posfloat q) (posfloat u)
          (posfloat v))
    where
      comma : (p : Posfloat) → IsPosfloat p → Lacks b',' (posfloat p)
      comma p k = posfloat-Lacks b',' p refl (omega arith) k

  -- The mark of a rotation, and its angle.
  abbrev pub rotation_meaning : Marked Posfloat → Option (Bool × F)
  rotation_meaning r = elim (fl.parse (posfloat r.value)) [
    | none ↦ none
    | some x ↦ some (r.mark, x)
  ]

  rotation_plain :
      (p : Posfloat)
      → IsPosfloat p
      → to_option (parse_rotation fl (posfloat p))
        ≡ rotation_meaning (record { mark = false; value = p })
  unfolding parse_rotation
  rotation_plain (whole []) k = absurd (k.0 refl)
  rotation_plain (whole (c ∷ a)) k = ground (arith, posfloat-no-bang (whole (c ∷ a)) k)
  rotation_plain (fraction [] b) k = absurd (k.0.0 refl)
  rotation_plain (fraction (c ∷ a) b) k = ground (arith, posfloat-no-bang (fraction (c ∷ a) b) k)

  pub parse_rotation_lem :
      (r : Marked Posfloat)
      → IsPosfloat r.value
      → to_option (parse_rotation fl (rotation_text r)) ≡ rotation_meaning r
  unfolding parse_rotation
  parse_rotation_lem r k = elim (Bool-cases r.mark) [
    | inl m ↦ ground arith
    | inr m ↦ ground (arith, rotation_plain r.value k)
  ]

abbrev pub quality_kind : Quality → QualityKind
quality_kind Quality.color = QualityKind.color
quality_kind Quality.gray = QualityKind.gray
quality_kind Quality.bitonal = QualityKind.bitonal
quality_kind Quality.default = QualityKind.default

abbrev pub format_kind : Format → FormatKind
format_kind Format.jpg = FormatKind.jpg
format_kind Format.tif = FormatKind.tif
format_kind Format.png = FormatKind.png
format_kind Format.jp2 = FormatKind.jp2

-- `parse_quality_format` never fails on a valid tail.
pub parse_quality_format_lem :
    (q : Quality) (f : Format)
    → parse_quality_format (qualform_text q f) ≡ ok (quality_kind q, format_kind f)
unfolding parse_quality_format
parse_quality_format_lem Quality.color Format.jpg = refl
parse_quality_format_lem Quality.color Format.tif = refl
parse_quality_format_lem Quality.color Format.png = refl
parse_quality_format_lem Quality.color Format.jp2 = refl
parse_quality_format_lem Quality.gray Format.jpg = refl
parse_quality_format_lem Quality.gray Format.tif = refl
parse_quality_format_lem Quality.gray Format.png = refl
parse_quality_format_lem Quality.gray Format.jp2 = refl
parse_quality_format_lem Quality.bitonal Format.jpg = refl
parse_quality_format_lem Quality.bitonal Format.tif = refl
parse_quality_format_lem Quality.bitonal Format.png = refl
parse_quality_format_lem Quality.bitonal Format.jp2 = refl
parse_quality_format_lem Quality.default Format.jpg = refl
parse_quality_format_lem Quality.default Format.tif = refl
parse_quality_format_lem Quality.default Format.png = refl
parse_quality_format_lem Quality.default Format.jp2 = refl
