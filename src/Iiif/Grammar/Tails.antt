-- ===== src/Iiif/Grammar/Tails.antt =====
-- `is_valid_rotation` and `is_valid_qualform` of parse.rs accept exactly their forms.
use sipi.Common.{
  List, [], ◌∷◌, ◌++◌, Bool, true, false, none, some, Text, codes, ◌≡◌, refl, ap, ◌∙◌, sym, inl,
  inr, arith, eq_iff, ◌=t=◌, Bool-cases, ◌||◌, Option-cases, strip_prefix, strip_prefix_sound,
  is_some_and,
}
use sipi.Iiif.Grammar.{is_valid_rotation, valid_qualform, is_valid_qualform, member, formats}
use sipi.Iiif.Grammar.Forms.{
  Posfloat, whole, fraction, posfloat, IsPosfloat, Marked, rotation_text, Quality, Format,
  quality_text, format_text, qualform_text,
}
use sipi.Iiif.Grammar.Validators.{whole_posfloat_sound, whole_posfloat}

pub is_valid_rotation_sound :
    (s : Text)
    → is_valid_rotation s ≡ true
    → (r : Marked Posfloat) × IsPosfloat r.value × (s ≡ rotation_text r)
unfolding is_valid_rotation
is_valid_rotation_sound s h = elim (Option-cases (strip_prefix (codes "!") s)) [
  | inl n ↦
      let (p, k, e) = whole_posfloat_sound s (ground arith) in
      (record { mark = false; value = p }, k, e)
  | inr (t, n) ↦
      let (p, k, e) = whole_posfloat_sound t (ground arith) in
      (record { mark = true; value = p }, k, strip_prefix_sound (codes "!") s t n ∙ ap (◌∷◌ b'!') e)
]

pub posfloat-no-bang : (p : Posfloat) → IsPosfloat p → strip_prefix (codes "!") (posfloat p) ≡ none
posfloat-no-bang (whole []) k = refl
posfloat-no-bang (whole (c ∷ a)) k = ground arith
posfloat-no-bang (fraction [] b) k = refl
posfloat-no-bang (fraction (c ∷ a) b) k = ground arith

pub is_valid_rotation_complete :
    (r : Marked Posfloat) → IsPosfloat r.value → is_valid_rotation (rotation_text r) ≡ true
unfolding is_valid_rotation
is_valid_rotation_complete r k = elim (Bool-cases r.mark) [
  | inl m ↦ ground (arith, whole_posfloat r.value k)
  | inr m ↦ ground (arith, whole_posfloat r.value k, posfloat-no-bang r.value k)
]

no_case :
    {a b c d : Bool}
    → a ≡ false
    → b ≡ false
    → c ≡ false
    → d ≡ false
    → (a || (b || (c || (d || false)))) ≡ true
    → ⊥
no_case {a = false} {b = false} {c = false} {d = false} p q r s h = cc
no_case {a = true} p q r s h = cc
no_case {a = false} {b = true} p q r s h = cc
no_case {a = false} {b = false} {c = true} p q r s h = cc
no_case {a = false} {b = false} {c = false} {d = true} p q r s h = cc

member_format : (t : Text) → member t formats ≡ true → (f : Format) × (t ≡ format_text f)
member_format t h = elim (Bool-cases (codes "jpg" =t= t)) [
  | inl e ↦ (Format.jpg, sym ((eq_iff (codes "jpg") t).0 e))
  | inr n₁ ↦ elim (Bool-cases (codes "tif" =t= t)) [
    | inl e ↦ (Format.tif, sym ((eq_iff (codes "tif") t).0 e))
    | inr n₂ ↦ elim (Bool-cases (codes "png" =t= t)) [
      | inl e ↦ (Format.png, sym ((eq_iff (codes "png") t).0 e))
      | inr n₃ ↦ elim (Bool-cases (codes "jp2" =t= t)) [
        | inl e ↦ (Format.jp2, sym ((eq_iff (codes "jp2") t).0 e))
        | inr n₄ ↦ absurd (no_case n₁ n₂ n₃ n₄ h)
      ]
    ]
  ]
]

-- What stands behind a quality.
abbrev format_follows : Text → Bool
format_follows rest = is_some_and (strip_prefix (codes ".") rest) (λ fmt. member fmt formats)

format_follows_sound :
    (q : Quality) (s rest : Text)
    → strip_prefix (quality_text q) s ≡ some rest
    → format_follows rest ≡ true
    → (q' : Quality) × (f : Format) × (s ≡ qualform_text q' f)
format_follows_sound q s rest e h = elim (Option-cases (strip_prefix (codes ".") rest)) [
  | inl n ↦ absurd (ground arith)
  | inr (t, n) ↦
      let (f, k) = member_format t (ground arith) in
      (
        q,
        f,
        strip_prefix_sound (quality_text q) s rest e
            ∙ ap (◌++◌ (quality_text q))
                (strip_prefix_sound (codes ".") rest t n ∙ ap (λ (u : Text). b'.' ∷ u) k),
      )
]

abbrev texts_of : List Quality → List Text
texts_of [] = []
texts_of (q ∷ qs) = quality_text q ∷ texts_of qs

valid_qualform_sound :
    (qs : List Quality) (s : Text)
    → valid_qualform (texts_of qs) s ≡ true
    → (q : Quality) × (f : Format) × (s ≡ qualform_text q f)
unfolding valid_qualform
valid_qualform_sound [] s h = absurd (cc)
valid_qualform_sound (q ∷ qs) s h = elim (Option-cases (strip_prefix (quality_text q) s)) [
  | inl n ↦ valid_qualform_sound qs s (rw (n, valid_qualform) at h)
  | inr (rest, n) ↦ format_follows_sound q s rest n (rw (n, valid_qualform) at h)
]

pub is_valid_qualform_sound :
    (s : Text) → is_valid_qualform s ≡ true → (q : Quality) × (f : Format) × (s ≡ qualform_text q f)
unfolding is_valid_qualform
is_valid_qualform_sound s h =
    valid_qualform_sound (Quality.color ∷ Quality.gray ∷ Quality.bitonal ∷ Quality.default ∷ []) s h

pub is_valid_qualform_complete :
    (q : Quality) (f : Format) → is_valid_qualform (qualform_text q f) ≡ true
unfolding is_valid_qualform
is_valid_qualform_complete Quality.color Format.jpg = refl
is_valid_qualform_complete Quality.color Format.tif = refl
is_valid_qualform_complete Quality.color Format.png = refl
is_valid_qualform_complete Quality.color Format.jp2 = refl
is_valid_qualform_complete Quality.gray Format.jpg = refl
is_valid_qualform_complete Quality.gray Format.tif = refl
is_valid_qualform_complete Quality.gray Format.png = refl
is_valid_qualform_complete Quality.gray Format.jp2 = refl
is_valid_qualform_complete Quality.bitonal Format.jpg = refl
is_valid_qualform_complete Quality.bitonal Format.tif = refl
is_valid_qualform_complete Quality.bitonal Format.png = refl
is_valid_qualform_complete Quality.bitonal Format.jp2 = refl
is_valid_qualform_complete Quality.default Format.jpg = refl
is_valid_qualform_complete Quality.default Format.tif = refl
is_valid_qualform_complete Quality.default Format.png = refl
is_valid_qualform_complete Quality.default Format.jp2 = refl
