-- ===== src/Iiif/Params/Capped.antt =====
-- Whatever the text, the dimensions that `parse_size` returns are at most 32000.
use sipi.Common.{
  ◌≤◌, Bool, true, false, Text, codes, ◌≡◌, inl, inr, arith, Result, ok, err, ◌>>=◌, Option-cases,
  Bool-cases, strip_prefix, split_once, is_empty, ◌=t=◌, ◌||◌,
}
use sipi.Iiif.Domain.{ParseError, Floats, IiifParams, RegionKind, QualityKind, FormatKind, Quad}
use sipi.Iiif.Params.{
  SizeParts, dim_cap, no_size, parse_pixels, parse_size_body, parse_bang, parse_size,
  parse_iiif_params, parse_region, parse_rotation, parse_quality_format,
}

module _ {F : Type 0} (fl : Floats F) where
  abbrev pub IsCapped : SizeParts F → Type 0
  IsCapped p = (p.nx ≤ dim_cap) × (p.ny ≤ dim_cap)

  -- A result whose dimensions are capped, if it is one.
  abbrev Caps : Result ParseError (SizeParts F) → Type 0
  Caps (ok p) = IsCapped p
  Caps (err e) = Unit

  pixels-Caps :
      (s : Text) (bang : Bool) (parts : SizeParts F) (w h : Text)
      → Caps (parse_pixels fl s bang parts w h)
  unfolding parse_pixels
  pixels-Caps s bang parts w h = ground arith

  body-Caps :
      (s : Text) (bang : Bool) (parts : SizeParts F) (rest : Text)
      → IsCapped parts
      → Caps (parse_size_body fl s bang parts rest)
  unfolding parse_size_body
  body-Caps s bang parts rest k = elim (Bool-cases (rest =t= codes "max" || is_empty rest)) [
    | inl e ↦ rw e k
    | inr e ↦ elim (Option-cases (strip_prefix (codes "pct:") rest)) [
      | inr (p, n) ↦ rw (e, n) (ground arith)
      | inl n ↦ elim (Option-cases (strip_prefix (codes "red:") rest)) [
        | inr (p, m) ↦ rw (e, n, m) (ground arith)
        | inl m ↦ elim (Option-cases (split_once b',' rest)) [
          | inl c ↦ rw (e, n, m, c) tt
          | inr ((w, h), c) ↦ rw (e, n, m, c) (pixels-Caps s bang parts w h)
        ]
      ]
    ]
  ]

  bang-Caps :
      (s : Text) (parts : SizeParts F) (rest : Text)
      → IsCapped parts
      → Caps (parse_bang fl s parts rest)
  unfolding parse_bang
  bang-Caps s parts rest k = elim (Option-cases (strip_prefix (codes "!") rest)) [
    | inl n ↦ rw (n, parse_bang) (body-Caps s false parts rest k)
    | inr (r, n) ↦ rw (n, parse_bang) (body-Caps s true parts r k)
  ]

  size-Caps : (s : Text) → Caps (parse_size fl s)
  unfolding parse_size
  size-Caps s = elim (Option-cases (strip_prefix (codes "^") s)) [
    | inl n ↦ rw (n, parse_size) (bang-Caps s (no_size fl false) s (omega arith))
    | inr (r, n) ↦ rw (n, parse_size) (bang-Caps s (no_size fl true) r (omega arith))
  ]

  -- Whatever the four texts, the dimensions that come back are at most 32000.
  pub parse_iiif_params-capped :
      (region size rotation qualform : Text) (p : IiifParams F)
      → parse_iiif_params fl region size rotation qualform ≡ ok p
      → (p.size_nx ≤ dim_cap) × (p.size_ny ≤ dim_cap)
  unfolding parse_iiif_params
  parse_iiif_params-capped region size rotation qualform p h =
      of_parts (parse_region fl region) (parse_size fl size) (parse_rotation fl rotation)
        (parse_quality_format qualform) (size-Caps size) h
    where
      of_parts :
          (r : Result ParseError (RegionKind × Quad F)) (sz : Result ParseError (SizeParts F))
          (rot : Result ParseError (Bool × F)) (qf : Result ParseError (QualityKind × FormatKind))
          → Caps sz
          → (r >>= λ r'. sz >>= λ s'. rot >>= λ t'. qf >>= λ q'. ok (record {
            region_kind = r'.0;
            region = r'.1;
            size_kind = s'.kind;
            size_upscaling = s'.upscaling;
            size_percent = s'.percent;
            size_reduce = s'.reduce;
            size_nx = s'.nx;
            size_ny = s'.ny;
            rotation = t'.1;
            rotation_mirror = t'.0;
            quality_kind = q'.0;
            format_kind = q'.1;
          }))
            ≡ ok p
          → (p.size_nx ≤ dim_cap) × (p.size_ny ≤ dim_cap)
      of_parts (ok r) (ok s) (ok t) (ok q) k h = ground arith
      of_parts (err e) s t q k h = absurd (cc)
      of_parts (ok r) (err e) t q k h = absurd (cc)
      of_parts (ok r) (ok s) (err e) q k h = absurd (cc)
      of_parts (ok r) (ok s) (ok t) (err e) k h = absurd (cc)
