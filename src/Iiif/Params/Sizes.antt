-- ===== src/Iiif/Params/Sizes.antt =====
-- What `parse_size` makes of each valid size.
use sipi.Common.{
  ℕ, [], ◌∷◌, ◌++◌, Bool, true, false, Option, none, some, Text, codes, ◌≡◌, refl, ap, inl, inr,
  if◌then◌else◌, arith, ltb, ◌==◌, min, All, Result, ok, err, Bool-cases, strip_prefix,
  split_once-append, Lacks, is_ascii_digit, u64_mod,
}
use sipi.Iiif.Domain.{ParseError, SizeKind, Floats}
use sipi.Iiif.Grammar.Forms.{
  IsDigit, IsPosint, posfloat, SizeForm, max, percent, width, height, exact, confined,
  size_form_text, IsSizeForm, Marked, size_text,
}
use sipi.Iiif.Params.{
  SizeParts, dim_cap, no_size, parse_height, parse_width, parse_both, parse_pixels, parse_size_body,
  parse_bang, parse_size,
}
use sipi.Iiif.Grammar.Sizes.{form-no-caret}
use sipi.Iiif.Params.Digits.{value, parse_usize_lem}

-- A requested dimension is a positive 64-bit number, and is cut at the cap.
abbrev pub dimension : Text → Option ℕ
dimension t =
    if ltb (value t) u64_mod
    then (if value t == 0 then none else some (min (value t) dim_cap))
    else none

abbrev pub dimensions : Text → Text → Option (ℕ × ℕ)
dimensions w h = elim (dimension w) [
  | none ↦ none
  | some nx ↦ elim (dimension h) [ none ↦ none | some ny ↦ some (nx, ny) ]
]

abbrev pub to_option {ℓ} : {A : Type ℓ} → Result ParseError A → Option A
to_option (ok a) = some a
to_option (err e) = none

pub digits-Lacks : (c : ℕ) (t : Text) → is_ascii_digit c ≡ false → All IsDigit t → Lacks c t
digits-Lacks c [] h k = tt
digits-Lacks c (d ∷ t) h k = ((λ e. cc (ap is_ascii_digit e, k.0, h)), digits-Lacks c t h k.1)

module _ {F : Type 0} (fl : Floats F) where
  abbrev pub parts_of : SizeKind → Bool → F → ℕ → ℕ → SizeParts F
  parts_of kind up pct nx ny = record {
    kind = kind;
    upscaling = up;
    percent = pct;
    reduce = 0;
    nx = nx;
    ny = ny;
  }

  -- What a size form asks for; `none` where the request is refused.
  abbrev pub size_meaning : Bool → SizeForm → Option (SizeParts F)
  size_meaning up max = some (parts_of SizeKind.full up fl.zero 0 0)
  size_meaning up (percent p) = elim (fl.parse (posfloat p)) [
    | none ↦ none
    | some x ↦ some (parts_of SizeKind.percents up (if fl.le x fl.tiny then fl.one else x) 0 0)
  ]
  size_meaning up (width w) = elim (dimension w) [
    | none ↦ none
    | some nx ↦ some (parts_of SizeKind.pixels_x up fl.zero nx 0)
  ]
  size_meaning up (height h) = elim (dimension h) [
    | none ↦ none
    | some ny ↦ some (parts_of SizeKind.pixels_y up fl.zero 0 ny)
  ]
  size_meaning up (exact w h) = elim (dimensions w h) [
    | none ↦ none
    | some (nx, ny) ↦ some (parts_of SizeKind.pixels_xy up fl.zero nx ny)
  ]
  size_meaning up (confined w h) = elim (dimensions w h) [
    | none ↦ none
    | some (nx, ny) ↦ some (parts_of SizeKind.maxdim up fl.zero nx ny)
  ]

  height_lem :
      (s h : Text) (up : Bool)
      → IsPosint h
      → to_option (parse_height fl s (no_size fl up) h) ≡ size_meaning up (height h)
  unfolding parse_height
  height_lem s h up k = ground (arith, parse_usize_lem h k)

  width_lem :
      (s w : Text) (up : Bool)
      → IsPosint w
      → to_option (parse_width fl s (no_size fl up) w) ≡ size_meaning up (width w)
  unfolding parse_width
  width_lem s w up k = ground (arith, parse_usize_lem w k)

  both_lem :
      (s w h : Text) (up bang : Bool)
      → IsPosint w
      → IsPosint h
      → to_option (parse_both fl s bang (no_size fl up) w h)
        ≡ size_meaning up (if bang then confined w h else exact w h)
  unfolding parse_both
  both_lem s w h up bang kw kh = ground (arith, parse_usize_lem w kw, parse_usize_lem h kh)

  pixels_lem :
      (s w h : Text) (up bang : Bool)
      → IsPosint w
      → IsPosint h
      → to_option (parse_pixels fl s bang (no_size fl up) w h)
        ≡ size_meaning up (if bang then confined w h else exact w h)
  unfolding parse_pixels
  pixels_lem s [] h up bang kw kh = absurd (kw.0 refl)
  pixels_lem s (c ∷ w) [] up bang kw kh = absurd (kh.0 refl)
  pixels_lem s (c ∷ w) (d ∷ h) up bang kw kh = both_lem s (c ∷ w) (d ∷ h) up bang kw kh

  -- Behind the marks, a text that begins with a digit or a comma goes to `parse_pixels`.
  body-pixels :
      (s w h : Text) (up bang : Bool)
      → All IsDigit w
      → parse_size_body fl s bang (no_size fl up) (w ++ b',' ∷ h)
        ≡ parse_pixels fl s bang (no_size fl up) w h
  unfolding parse_size_body
  body-pixels s [] h up bang k = refl
  body-pixels s (c ∷ w) h up bang k =
      ground (arith, split_once-append b',' (c ∷ w) h (digits-Lacks b',' (c ∷ w) refl k))

  -- Without a `!` in front.
  plain_lem :
      (s w h : Text) (up : Bool)
      → IsPosint w
      → parse_bang fl s (no_size fl up) (w ++ b',' ∷ h)
        ≡ parse_pixels fl s false (no_size fl up) w h
  unfolding parse_bang
  plain_lem s [] h up k = absurd (k.0 refl)
  plain_lem s (c ∷ w) h up k = ground (arith, body-pixels s (c ∷ w) h up false k.1)

  form_lem :
      (s : Text) (up : Bool) (f : SizeForm)
      → IsSizeForm f
      → to_option (parse_bang fl s (no_size fl up) (size_form_text f)) ≡ size_meaning up f
  unfolding parse_bang parse_size_body parse_pixels
  form_lem s up max k = refl
  form_lem s up (percent p) k = ground arith
  form_lem s up (width []) k = absurd (k.0 refl)
  form_lem s up (width (c ∷ w)) k = rw (plain_lem s (c ∷ w) [] up k) (width_lem s (c ∷ w) up k)
  form_lem s up (height []) k = absurd (k.0 refl)
  form_lem s up (height (c ∷ h)) k = height_lem s (c ∷ h) up k
  form_lem s up (exact w h) k = rw (plain_lem s w h up k.0) (pixels_lem s w h up false k.0 k.1)
  form_lem s up (confined w h) k =
      rw (body-pixels s w h up true k.0.1) (pixels_lem s w h up true k.0 k.1)

  parse_size_plain :
      (s : Text)
      → strip_prefix (codes "^") s ≡ none
      → parse_size fl s ≡ parse_bang fl s (no_size fl false) s
  unfolding parse_size
  parse_size_plain s n = ground arith

  -- `parse_size` gives each valid size its meaning, and refuses it exactly where that is `none`.
  pub parse_size_lem :
      (f : Marked SizeForm)
      → IsSizeForm f.value
      → to_option (parse_size fl (size_text f)) ≡ size_meaning f.mark f.value
  parse_size_lem f k = elim (Bool-cases f.mark) [
    | inl m ↦ rw m (unfold parse_size in form_lem (b'^' ∷ size_form_text f.value) true f.value k)
    | inr m ↦ rw m (
        rw (parse_size_plain (size_form_text f.value) (form-no-caret f.value k))
          (form_lem (size_form_text f.value) false f.value k))
  ]
