-- ===== src/Iiif/Grammar/Consume.antt =====
-- What the consumers of parse.rs take from the front of a text.
use sipi.Common.{
  [], ◌∷◌, ◌++◌, false, none, some, Text, codes, All, ◌≡◌, ◌≢◌, refl, ap, ◌∙◌, is_ascii_digit, inl,
  inr, arith, drop, take, Bool-cases, Option-cases, subst, append_assoc, strip_prefix,
  strip_prefix_sound,
}
use sipi.Iiif.Grammar.{digits_end, consume_posint, consume_posfloat}
use sipi.Iiif.Grammar.Forms.{IsDigit, IsPosint, Posfloat, whole, fraction, posfloat, IsPosfloat}

-- A text that does not go on with a digit.
abbrev pub Stops : Text → Type 0
Stops [] = Unit
Stops (c ∷ s) = is_ascii_digit c ≡ false

take_digits : (s : Text) → All IsDigit (take (digits_end s) s)
unfolding digits_end
take_digits [] = tt
take_digits (c ∷ s) = ground (arith, take_digits s)

take-append-drop_digits : (s : Text) → s ≡ take (digits_end s) s ++ drop (digits_end s) s
unfolding digits_end
take-append-drop_digits [] = refl
take-append-drop_digits (c ∷ s) = ground (arith, take-append-drop_digits s)

drop_digits-Stops : (s : Text) → Stops (drop (digits_end s) s)
unfolding digits_end
drop_digits-Stops [] = tt
drop_digits-Stops (c ∷ s) = ground (arith, drop_digits-Stops s)

drop_digits-append :
    (p r : Text) → All IsDigit p → Stops r → drop (digits_end (p ++ r)) (p ++ r) ≡ r
unfolding digits_end
drop_digits-append [] [] h k = refl
drop_digits-append [] (c ∷ r) h k = ground arith
drop_digits-append (c ∷ p) r h k = ground (arith, drop_digits-append p r h.1 k)

-- What `consume_posint` leaves stands behind a number, and does not go on with a digit.
pub record Consumes (P : Text → Type 0) (s r : Text) : Type 0 where
  pub taken : Text
  pub number : P taken
  pub rest : s ≡ taken ++ r
  pub stops : Stops r

pub consume_posint_sound : (s r : Text) → consume_posint s ≡ some r → Consumes IsPosint s r
unfolding consume_posint digits_end
consume_posint_sound [] r h = absurd (cc)
consume_posint_sound (c ∷ s) r h = elim (Bool-cases (is_ascii_digit c)) [
  | inl d ↦
      let left : drop (digits_end s) s ≡ r = ground arith in
      record {
        taken = c ∷ take (digits_end s) s;
        number = (λ e. cc, (d, take_digits s));
        rest = ap (◌∷◌ c) (take-append-drop_digits s ∙ ap (◌++◌ (take (digits_end s) s)) left);
        stops = subst Stops left (drop_digits-Stops s);
      }
  | inr d ↦ absurd (ground arith)
]

pub consume_posint-append : (p r : Text) → IsPosint p → Stops r → consume_posint (p ++ r) ≡ some r
unfolding consume_posint
consume_posint-append [] r h k = absurd (h.0 refl)
consume_posint-append (c ∷ p) r h k = ground (arith, drop_digits-append p r h.1.1 k)

-- A text that a number with a fraction cannot go on with.
abbrev pub Ends : Text → Type 0
Ends [] = Unit
Ends (c ∷ s) = (is_ascii_digit c ≡ false) × (c ≢ b'.')

pub Ends-Stops : (r : Text) → Ends r → Stops r
Ends-Stops [] h = tt
Ends-Stops (c ∷ r) h = h.0

Ends-strip : (r : Text) → Ends r → strip_prefix (codes ".") r ≡ none
Ends-strip [] h = refl
Ends-strip (c ∷ r) h = ground arith

abbrev pub IsDecimal : Text → Type 0
IsDecimal t = (p : Posfloat) × IsPosfloat p × (t ≡ posfloat p)

pub consume_posfloat_sound :
    (s r : Text)
    → consume_posfloat s ≡ some r
    → (p : Posfloat) × IsPosfloat p × (s ≡ posfloat p ++ r)
unfolding consume_posfloat
consume_posfloat_sound s r h = elim (Option-cases (consume_posint s)) [
  | inl e ↦ absurd (ground arith)
  | inr (t, e) ↦
      let front = consume_posint_sound s t e in
      elim (Option-cases (strip_prefix (codes ".") t)) [
        | inl n ↦
            let same : t ≡ r = ground arith in
            (whole front.taken, front.number, front.rest ∙ ap (◌++◌ front.taken) same)
        | inr (u, n) ↦
            let back = consume_posint_sound u r (ground arith) in
            (
              fraction front.taken back.taken,
              (front.number, back.number),
              cc (
                front.rest,
                back.rest,
                strip_prefix_sound (codes ".") t u n,
                append_assoc front.taken (b'.' ∷ back.taken) r,
              ),
            )
      ]
]

pub consume_posfloat-append :
    (p : Posfloat) (r : Text) → IsPosfloat p → Ends r → consume_posfloat (posfloat p ++ r) ≡ some r
unfolding consume_posfloat
consume_posfloat-append (whole a) r h k =
    rw (consume_posint-append a r h (Ends-Stops r k)) (rw (Ends-strip r k))
consume_posfloat-append (fraction a b) r h k = rw (append_assoc a (b'.' ∷ b) r) (
    rw (consume_posint-append a (b'.' ∷ (b ++ r)) h.0 refl)
      (consume_posint-append b r h.1 (Ends-Stops r k)))
