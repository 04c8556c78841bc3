-- ===== src/Iiif/Grammar/Sizes.antt =====
-- `is_valid_size` of parse.rs accepts exactly the size forms.
use sipi.Common.{
  [], ◌∷◌, ◌++◌, Bool, true, false, none, some, Text, codes, ◌≡◌, refl, ap, ◌∙◌, sym, inl, inr,
  if◌then◌else◌, arith, is_empty, eq_iff, ◌=t=◌, subst, Bool-cases, Option-cases, strip_prefix,
  strip_prefix_sound, is_some_and,
}
use sipi.Iiif.Grammar.{consume_posint, consume_posfloat, valid_width, valid_pixels, is_valid_size}
use sipi.Iiif.Grammar.Forms.{
  IsPosint, SizeForm, max, percent, width, height, exact, confined, size_form_text, IsSizeForm,
  Marked, size_text,
}
use sipi.Iiif.Grammar.Consume.{consume_posint_sound, consume_posint-append}
use sipi.Iiif.Grammar.Validators.{
  whole-IsPosint_sound, whole_posint, whole_posfloat_sound, whole_posfloat,
}

-- A text that is spelled by a form for which `P` holds.
abbrev Spelled : (SizeForm → Type 0) → Text → Type 0
Spelled P s = (f : SizeForm) × P f × IsSizeForm f × (s ≡ size_form_text f)

-- With the `!` in front, of which only the confined form is made.
abbrev banged : Bool → Text → Text
banged true s = b'!' ∷ s
banged false s = s

abbrev IsForm : Text → Type 0
IsForm s = (f : SizeForm) × IsSizeForm f × (s ≡ size_form_text f)

valid_width_sound : (bang : Bool) (s : Text) → valid_width bang s ≡ true → IsForm (banged bang s)
unfolding valid_width
valid_width_sound bang s h = elim (Option-cases (consume_posint s)) [
  | inl e ↦ absurd (ground arith)
  | inr (r, e) ↦ elim (Option-cases (strip_prefix (codes ",") r)) [
    | inl n ↦ absurd (ground arith)
    | inr (t, n) ↦
        let c = consume_posint_sound s r e in
        finish bang s c.taken t c.number
          (c.rest ∙ ap (◌++◌ c.taken) (strip_prefix_sound (codes ",") r t n)) (ground arith)
  ]
]
  where
    finish :
        (bang : Bool) (s w t : Text)
        → IsPosint w
        → s ≡ w ++ b',' ∷ t
        → (if is_empty t
            then (if bang then false else true)
            else is_some_and (consume_posint t) is_empty)
          ≡ true
        → IsForm (banged bang s)
    finish true s w [] k e h = absurd (cc)
    finish false s w [] k e h = (width w, k, e)
    finish true s w (d ∷ t) k e h =
        (confined w (d ∷ t), (k, whole-IsPosint_sound (d ∷ t) h), ap (◌∷◌ b'!') e)
    finish false s w (d ∷ t) k e h = (exact w (d ∷ t), (k, whole-IsPosint_sound (d ∷ t) h), e)

valid_pixels_sound : (bang : Bool) (s : Text) → valid_pixels bang s ≡ true → IsForm (banged bang s)
unfolding valid_pixels
valid_pixels_sound bang s h = elim (Option-cases (strip_prefix (codes ",") s)) [
  | inl n ↦ valid_width_sound bang s (ground arith)
  | inr (t, n) ↦ behind bang t n (ground arith)
]
  where
    behind :
        (bang : Bool) (t : Text)
        → strip_prefix (codes ",") s ≡ some t
        → (if bang then false else is_some_and (consume_posint t) is_empty) ≡ true
        → IsForm (banged bang s)
    behind true t n h = absurd (cc)
    behind false t n h = (height t, whole-IsPosint_sound t h, strip_prefix_sound (codes ",") s t n)

-- What follows the optional `^`.
valid_body : Text → Bool
valid_body s = if s =t= codes "max" then true else elim (strip_prefix (codes "pct:") s) [
  | some p ↦ is_some_and (consume_posfloat p) is_empty
  | none ↦ elim (strip_prefix (codes "!") s) [
    | some r ↦ valid_pixels true r
    | none ↦ valid_pixels false s
  ]
]

valid_body_sound : (s : Text) → valid_body s ≡ true → IsForm s
unfolding valid_body
valid_body_sound s h = elim (Bool-cases (s =t= codes "max")) [
  | inl e ↦ (max, tt, (eq_iff s (codes "max")).0 e)
  | inr e ↦ elim (Option-cases (strip_prefix (codes "pct:") s)) [
    | inr (t, n) ↦
        let (p, k, q) = whole_posfloat_sound t (ground arith) in
        (percent p, k, strip_prefix_sound (codes "pct:") s t n ∙ ap (◌++◌ (codes "pct:")) q)
    | inl n ↦ elim (Option-cases (strip_prefix (codes "!") s)) [
      | inr (t, b) ↦
          subst IsForm (sym (strip_prefix_sound (codes "!") s t b))
            (valid_pixels_sound true t (ground arith))
      | inl b ↦ valid_pixels_sound false s (ground arith)
    ]
  ]
]

pub is_valid_size_sound :
    (s : Text)
    → is_valid_size s ≡ true
    → (f : Marked SizeForm) × IsSizeForm f.value × (s ≡ size_text f)
unfolding is_valid_size valid_body
is_valid_size_sound s h = elim (Option-cases (strip_prefix (codes "^") s)) [
  | inl n ↦
      let (f, k, e) = valid_body_sound s (ground arith) in
      (record { mark = false; value = f }, k, e)
  | inr (t, n) ↦
      let (f, k, e) = valid_body_sound t (ground arith) in
      (record { mark = true; value = f }, k, strip_prefix_sound (codes "^") s t n ∙ ap (◌∷◌ b'^') e)
]

valid_body_complete : (f : SizeForm) → IsSizeForm f → valid_body (size_form_text f) ≡ true
unfolding valid_body valid_pixels valid_width
valid_body_complete max k = refl
valid_body_complete (percent p) k = rw (whole_posfloat p k)
valid_body_complete (width []) k = absurd (k.0 refl)
valid_body_complete (width (c ∷ w)) k =
    ground (arith, consume_posint-append (c ∷ w) (b',' ∷ []) k refl)
valid_body_complete (height h) k = ground (arith, whole_posint h k)
valid_body_complete (exact [] h) k = absurd (k.0.0 refl)
valid_body_complete (exact (c ∷ w) []) k = absurd (k.1.0 refl)
valid_body_complete (exact (c ∷ w) (d ∷ h)) k =
    ground (arith, consume_posint-append (c ∷ w) (b',' ∷ d ∷ h) k.0 refl, whole_posint (d ∷ h) k.1)
valid_body_complete (confined [] h) k = absurd (k.0.0 refl)
valid_body_complete (confined (c ∷ w) []) k = absurd (k.1.0 refl)
valid_body_complete (confined (c ∷ w) (d ∷ h)) k =
    ground (arith, consume_posint-append (c ∷ w) (b',' ∷ d ∷ h) k.0 refl, whole_posint (d ∷ h) k.1)

-- No form begins with `^`.
pub form-no-caret :
    (f : SizeForm) → IsSizeForm f → strip_prefix (codes "^") (size_form_text f) ≡ none
form-no-caret max k = refl
form-no-caret (percent p) k = refl
form-no-caret (width []) k = refl
form-no-caret (width (c ∷ w)) k = ground arith
form-no-caret (height h) k = refl
form-no-caret (exact [] h) k = refl
form-no-caret (exact (c ∷ w) h) k = ground arith
form-no-caret (confined w h) k = refl

pub is_valid_size_complete :
    (f : Marked SizeForm) → IsSizeForm f.value → is_valid_size (size_text f) ≡ true
unfolding is_valid_size valid_body
is_valid_size_complete f k = elim (Bool-cases f.mark) [
  | inl m ↦ ground (arith, valid_body_complete f.value k)
  | inr m ↦ ground (arith, valid_body_complete f.value k, form-no-caret f.value k)
]
