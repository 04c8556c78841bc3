-- ===== src/Iiif/Grammar/Exact.antt =====
-- Each validator accepts exactly the texts of its grammar.
use sipi.Common.{true, Text, ◌≡◌, ◌↔◌, ◌∙◌, ap}
use sipi.Iiif.Grammar.{is_valid_region, is_valid_size, is_valid_rotation, is_valid_qualform}
use sipi.Iiif.Grammar.Forms.{
  Posfloat, IsPosfloat, Region, IsRegion, region_text, SizeForm, IsSizeForm, size_text, Marked,
  rotation_text, Quality, Format, qualform_text,
}
use sipi.Iiif.Grammar.Regions.{is_valid_region_sound, is_valid_region_complete}
use sipi.Iiif.Grammar.Sizes.{is_valid_size_sound, is_valid_size_complete}
use sipi.Iiif.Grammar.Tails.{
  is_valid_rotation_sound, is_valid_rotation_complete, is_valid_qualform_sound,
  is_valid_qualform_complete,
}

-- `is_valid_region` accepts exactly `full`, `square`, four integers, and `pct:` with four decimals.
pub is_valid_region_iff :
    (s : Text) → (is_valid_region s ≡ true) ↔ ((r : Region) × IsRegion r × (s ≡ region_text r))
is_valid_region_iff s =
    (is_valid_region_sound s, (λ (r, k, e). ap is_valid_region e ∙ is_valid_region_complete r k))

-- `is_valid_size` accepts exactly `max`, `pct:` with a decimal, `w,`, `,h`, `w,h` and `!w,h`, each
-- with or without a `^` in front.
pub is_valid_size_iff :
    (s : Text)
    → (is_valid_size s ≡ true) ↔ ((f : Marked SizeForm) × IsSizeForm f.value × (s ≡ size_text f))
is_valid_size_iff s =
    (is_valid_size_sound s, (λ (f, k, e). ap is_valid_size e ∙ is_valid_size_complete f k))

-- `is_valid_rotation` accepts exactly a decimal, with or without a `!` in front.
pub is_valid_rotation_iff :
    (s : Text)
    → (is_valid_rotation s ≡ true)
      ↔ ((r : Marked Posfloat) × IsPosfloat r.value × (s ≡ rotation_text r))
is_valid_rotation_iff s = (
  is_valid_rotation_sound s,
  (λ (r, k, e). ap is_valid_rotation e ∙ is_valid_rotation_complete r k),
)

-- `is_valid_qualform` accepts exactly one of the four qualities, a dot and one of the four formats.
pub is_valid_qualform_iff :
    (s : Text)
    → (is_valid_qualform s ≡ true) ↔ ((q : Quality) × (f : Format) × (s ≡ qualform_text q f))
is_valid_qualform_iff s = (
  is_valid_qualform_sound s,
  (λ (q, f, e). ap is_valid_qualform e ∙ is_valid_qualform_complete q f),
)
