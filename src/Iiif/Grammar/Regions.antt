-- ===== src/Iiif/Grammar/Regions.antt =====
-- `is_valid_region` of parse.rs accepts exactly the region forms.
use sipi.Common.{
  ℕ, zero, suc, ◌+◌, [], ◌∷◌, ◌++◌, Bool, true, false, Option, none, some, Text, codes, ◌≡◌, refl,
  ap, ◌∙◌, sym, inl, inr, if◌then◌else◌, arith, is_empty, eq_iff, ◌=t=◌, ltb, subst, Bool-cases,
  Option-cases, strip_prefix, strip_prefix_sound, append-nil, and_then, is_some_and,
}
use sipi.Iiif.Grammar.{consume_posint, consume_posfloat, valid_fields, is_valid_region}
use sipi.Iiif.Grammar.Forms.{
  IsPosint, posfloat, Region, full, square, coords, percents, region_text, IsRegion,
}
use sipi.Iiif.Grammar.Consume.{
  IsDecimal, Ends, Ends-Stops, consume_posint_sound, consume_posint-append, consume_posfloat_sound,
  consume_posfloat-append,
}

and_then-eq-some {ℓ κ} :
    {A : Type ℓ} {B : Type κ} (m : Option A) (f : A → Option B) {b : B}
    → and_then m f ≡ some b
    → (a : A) × (m ≡ some a) × (f a ≡ some b)
and_then-eq-some none f h = absurd (cc)
and_then-eq-some (some a) f h = (a, refl, h)

-- What a number of the region looks like, with and without `pct:`.
abbrev IsNumber : Bool → Text → Type 0
IsNumber true t = IsDecimal t
IsNumber false t = IsPosint t

IsNumber-sound :
    (pct : Bool) (s r : Text)
    → (if pct then consume_posfloat s else consume_posint s) ≡ some r
    → (a : Text) × IsNumber pct a × (s ≡ a ++ r)
IsNumber-sound true s r h =
    let (p, k, e) = consume_posfloat_sound s r h in (posfloat p, (p, k, refl), e)
IsNumber-sound false s r h = let c = consume_posint_sound s r h in (c.taken, c.number, c.rest)

comma_sound :
    (later : Bool) (s r : Text)
    → (if later then strip_prefix (codes ",") s else some s) ≡ some r
    → s ≡ (if later then b',' ∷ r else r)
comma_sound false s r h = ground arith
comma_sound true s r h = strip_prefix_sound (codes ",") s r h

-- So many numbers from round `i` on, with a comma in front of each but the first.
abbrev Fields : Bool → ℕ → ℕ → Text → Text → Type 0
Fields pct i zero s r = s ≡ r
Fields pct i (suc left) s r =
    (a : Text) × (s' : Text) × IsNumber pct a
    × (s ≡ (if ltb 0 i then b',' ∷ (a ++ s') else a ++ s'))
    × Fields pct (i + 1) left s' r

Fields-sound :
    (pct : Bool) (i left : ℕ) (s r : Text)
    → valid_fields pct i left s ≡ some r
    → Fields pct i left s r
unfolding valid_fields
Fields-sound pct i zero s r h = ground arith
Fields-sound pct i (suc left) s r h =
    let (t, comma, h₁) = and_then-eq-some _ _ h in
    let (u, number, h₂) = and_then-eq-some _ _ h₁ in
    let (a, k, e) = IsNumber-sound pct t u number in
    (
      a,
      u,
      k,
      comma_sound (ltb 0 i) s t comma ∙ ap (λ (x : Text). if ltb 0 i then b',' ∷ x else x) e,
      Fields-sound pct (i + 1) left u r h₂,
    )

number-append :
    (pct : Bool) (a r : Text)
    → IsNumber pct a
    → Ends r
    → (if pct then consume_posfloat (a ++ r) else consume_posint (a ++ r)) ≡ some r
number-append true a r (p, k, e) s = rw e (consume_posfloat-append p r k s)
number-append false a r k s = consume_posint-append a r k (Ends-Stops r s)

Ends-comma : (r : Text) → Ends (b',' ∷ r)
Ends-comma r = (refl, omega arith)

fields_complete :
    (pct : Bool) (a b c d : Text)
    → IsNumber pct a
    → IsNumber pct b
    → IsNumber pct c
    → IsNumber pct d
    → valid_fields pct 0 4 (a ++ (b',' ∷ (b ++ (b',' ∷ (c ++ (b',' ∷ d)))))) ≡ some []
unfolding valid_fields
fields_complete pct a b c d ka kb kc kd =
    rw
      (number-append pct a (b',' ∷ (b ++ (b',' ∷ (c ++ (b',' ∷ d))))) ka
        (Ends-comma (b ++ (b',' ∷ (c ++ (b',' ∷ d))))))
      (rw (number-append pct b (b',' ∷ (c ++ (b',' ∷ d))) kb (Ends-comma (c ++ (b',' ∷ d))))
        (rw (number-append pct c (b',' ∷ d) kc (Ends-comma d)) (rw (last pct d kd))))
  where
    last :
        (pct : Bool) (d : Text)
        → IsNumber pct d
        → (if pct then consume_posfloat d else consume_posint d) ≡ some []
    last pct d k =
        subst (λ (x : Text). (if pct then consume_posfloat x else consume_posint x) ≡ some [])
          (append-nil d) (number-append pct d [] k tt)

-- The text of four numbers, as the fields of the loop.
abbrev four_numbers : Text → Text → Text → Text → Text
four_numbers a b c d = a ++ (b',' ∷ (b ++ (b',' ∷ (c ++ (b',' ∷ d)))))

fields_four :
    (pct : Bool) (s : Text)
    → is_some_and (valid_fields pct 0 4 s) is_empty ≡ true
    → (a b c d : Text) × IsNumber pct a
      × IsNumber pct b
      × IsNumber pct c
      × IsNumber pct d
      × (s ≡ four_numbers a b c d)
fields_four pct s h = elim (Option-cases (valid_fields pct 0 4 s)) [
  | inl e ↦ absurd (ground arith)
  | inr (x ∷ r, e) ↦ absurd (ground arith)
  | inr ([], e) ↦
      let (a, s₁, ka, ea, f₁) = Fields-sound pct 0 4 s [] e in
      let (b, s₂, kb, eb, f₂) = f₁ in
      let (c, s₃, kc, ec, f₃) = f₂ in
      let (d, s₄, kd, ed, f₄) = f₃ in
      (
        a,
        b,
        c,
        d,
        ka,
        kb,
        kc,
        kd,
        ea
            ∙ ap (◌++◌ a) (
                eb
                ∙ comma b s₂ _
                    (ec ∙ comma c s₃ _ (ed ∙ comma d s₄ [] f₄ ∙ ap (◌∷◌ b',') (append-nil d)))),
      )
]
  where
    comma : (x s t : Text) → s ≡ t → ◌≡◌ {A = Text} (b',' ∷ (x ++ s)) (b',' ∷ (x ++ t))
    comma x s t e = ap (λ (u : Text). b',' ∷ (x ++ u)) e

-- The two words and the forms with numbers.
region_of_numbers :
    (pct : Bool) (s : Text)
    → is_some_and (valid_fields pct 0 4 s) is_empty ≡ true
    → (r : Region) × IsRegion r × (region_text r ≡ (if pct then codes "pct:" ++ s else s))
region_of_numbers true s h =
    let (a, b, c, d, (p, kp, ep), (q, kq, eq), (u, ku, eu), (v, kv, ev), e) =
      fields_four true s h in
    (percents p q u v, (kp, kq, ku, kv), cc (e, ep, eq, eu, ev))
region_of_numbers false s h =
    let (a, b, c, d, ka, kb, kc, kd, e) = fields_four false s h in
    (coords a b c d, (ka, kb, kc, kd), sym e)

pub is_valid_region_sound :
    (s : Text) → is_valid_region s ≡ true → (r : Region) × IsRegion r × (s ≡ region_text r)
unfolding is_valid_region
is_valid_region_sound s h = elim (Bool-cases (s =t= codes "full")) [
  | inl e ↦ (full, tt, (eq_iff s (codes "full")).0 e)
  | inr e ↦ elim (Bool-cases (s =t= codes "square")) [
    | inl e' ↦ (square, tt, (eq_iff s (codes "square")).0 e')
    | inr e' ↦ elim (Option-cases (strip_prefix (codes "pct:") s)) [
      | inl n ↦ let (r, k, e) = region_of_numbers false s (ground arith) in (r, k, sym e)
      | inr (t, n) ↦
          let (r, k, e) = region_of_numbers true t (ground arith) in
          (r, k, strip_prefix_sound (codes "pct:") s t n ∙ sym e)
    ]
  ]
]

pub is_valid_region_complete : (r : Region) → IsRegion r → is_valid_region (region_text r) ≡ true
unfolding is_valid_region
is_valid_region_complete full k = refl
is_valid_region_complete square k = refl
is_valid_region_complete (percents p q u v) (kp, kq, ku, kv) = rw (
    fields_complete true (posfloat p) (posfloat q) (posfloat u) (posfloat v) (p, kp, refl)
      (q, kq, refl) (u, ku, refl) (v, kv, refl))
is_valid_region_complete (coords [] b c d) k = absurd (k.0.0 refl)
is_valid_region_complete (coords (x ∷ a) b c d) (ka, kb, kc, kd) =
    ground (arith, fields_complete false (x ∷ a) b c d ka kb kc kd)
