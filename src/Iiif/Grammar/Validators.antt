-- ===== src/Iiif/Grammar/Validators.antt =====
-- The validators of parse.rs accept exactly the texts of the forms.
use sipi.Common.{
  [], ◌∷◌, true, Text, ◌≡◌, ap, ◌∙◌, sym, inl, inr, arith, is_empty, Option-cases, append-nil,
  subst, is_some_and,
}
use sipi.Iiif.Grammar.{consume_posint, consume_posfloat}
use sipi.Iiif.Grammar.Forms.{IsPosint, Posfloat, posfloat, IsPosfloat}
use sipi.Iiif.Grammar.Consume.{
  consume_posint_sound, consume_posint-append, consume_posfloat_sound, consume_posfloat-append,
}

-- `consume(s).is_some_and(str::is_empty)` accepts numbers and nothing else.
pub whole-IsPosint_sound : (s : Text) → is_some_and (consume_posint s) is_empty ≡ true → IsPosint s
whole-IsPosint_sound s h = elim (Option-cases (consume_posint s)) [
  | inl e ↦ absurd (ground arith)
  | inr ([], e) ↦
      let c = consume_posint_sound s [] e in
      subst IsPosint (sym (c.rest ∙ append-nil c.taken)) c.number
  | inr (d ∷ r, e) ↦ absurd (ground arith)
]

pub whole_posint : (s : Text) → IsPosint s → is_some_and (consume_posint s) is_empty ≡ true
whole_posint s h = rw (ap consume_posint (sym (append-nil s)) ∙ consume_posint-append s [] h tt)

pub whole_posfloat_sound :
    (s : Text)
    → is_some_and (consume_posfloat s) is_empty ≡ true
    → (p : Posfloat) × IsPosfloat p × (s ≡ posfloat p)
whole_posfloat_sound s h = elim (Option-cases (consume_posfloat s)) [
  | inl e ↦ absurd (ground arith)
  | inr ([], e) ↦
      let (p, k, q) = consume_posfloat_sound s [] e in (p, k, q ∙ append-nil (posfloat p))
  | inr (d ∷ r, e) ↦ absurd (ground arith)
]

pub whole_posfloat :
    (p : Posfloat) → IsPosfloat p → is_some_and (consume_posfloat (posfloat p)) is_empty ≡ true
whole_posfloat p h =
    rw (ap consume_posfloat (sym (append-nil (posfloat p))) ∙ consume_posfloat-append p [] h tt)
