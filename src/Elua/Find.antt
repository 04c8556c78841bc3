-- ===== src/Elua/Find.antt =====
-- Where a needle is found first.
use sipi.Common.{
  ℕ, suc, ◌+◌, [], ◌∷◌, ◌++◌, Bool, true, false, Option, none, some, Text, leb, length, take,
  starts_with, strip_prefix, is_some, if◌then◌else◌, ◌≡◌, inl, inr, refl, ap, sym, ◌∙◌, subst,
  arith, Bool-cases, length-append, take-length_append, drop-length_append, append_assoc,
  append-nil, strip_prefix_sound, strip_prefix-append,
}
use sipi.Elua.{shifted, moved, position, find, slice}

-- The needle is first found at the end.
abbrev pub EndsFirst : Text → Text → Type 0
EndsFirst needle s = position needle (s ++ needle) ≡ some (length s)

starts_with_sound : (p s : Text) → starts_with p s ≡ true → (r : Text) × (s ≡ p ++ r)
starts_with_sound p s h = at (strip_prefix p s) refl h
  where
    at : (o : Option Text) → strip_prefix p s ≡ o → is_some o ≡ true → (r : Text) × (s ≡ p ++ r)
    at none e h = cc
    at (some r) e h = (r, strip_prefix_sound p s r e)

starts_with-append : (p r : Text) → starts_with p (p ++ r) ≡ true
starts_with-append p r = ap is_some (strip_prefix-append p r)

-- What does not start a text does not start what it begins with.
starts_with_mono : (p s t : Text) → starts_with p (s ++ t) ≡ false → starts_with p s ≡ false
starts_with_mono p s t h = elim (Bool-cases (starts_with p s)) [
  | inl e ↦
      let (r, q) = starts_with_sound p s e in
      cc (
        ap (λ u. starts_with p (u ++ t)) q,
        ap (starts_with p) (append_assoc p r t),
        starts_with-append p (r ++ t),
      )
  | inr e ↦ e
]

-- The text is split at the place where the needle is first found.
abbrev pub Split : Text → Text → ℕ → Type 0
Split needle s i =
    (front : Text) × (rest : Text) × (s ≡ front ++ (needle ++ rest))
    × (length front ≡ i)
    × EndsFirst needle front

position-here :
    (d : ℕ) (n : Text) (c : ℕ) (s : Text)
    → starts_with (d ∷ n) (c ∷ s) ≡ true
    → position (d ∷ n) (c ∷ s) ≡ some 0
unfolding position
position-here d n c s e =
    subst (λ b. if◌then◌else◌ {A = Option ℕ} b (some 0) (shifted (position (d ∷ n) s)) ≡ some 0)
      (sym e) refl

position-next :
    (d : ℕ) (n : Text) (c : ℕ) (s : Text) (i : ℕ)
    → starts_with (d ∷ n) (c ∷ s) ≡ false
    → position (d ∷ n) s ≡ some i
    → position (d ∷ n) (c ∷ s) ≡ some (suc i)
unfolding position
position-next d n c s i e h =
    subst
      (λ b. if◌then◌else◌ {A = Option ℕ} b (some 0) (shifted (position (d ∷ n) s)) ≡ some (suc i))
      (sym e) (ap shifted h)

Split-step :
    (d : ℕ) (n : Text) (c : ℕ) (s : Text) (i : ℕ) (b : Bool) (o : Option ℕ)
    → starts_with (d ∷ n) (c ∷ s) ≡ b
    → ((j : ℕ) → o ≡ some j → Split (d ∷ n) s j)
    → (if b then some 0 else shifted o) ≡ some i
    → Split (d ∷ n) (c ∷ s) i
Split-step d n c s i true o e f h =
    let (r, q) = starts_with_sound (d ∷ n) (c ∷ s) e in
    (
      [],
      r,
      q,
      cc,
      position-here d n d n
          (ap (starts_with (d ∷ n)) (sym (append-nil (d ∷ n))) ∙ starts_with-append (d ∷ n) []),
    )
Split-step d n c s i false none e f h = cc
Split-step d n c s i false (some j) e f h =
    let (front, rest, q, l, p) = f j refl in
    (
      c ∷ front,
      rest,
      ap (λ t. c ∷ t) q,
      cc,
      position-next d n c (front ++ (d ∷ n)) (length front)
          (starts_with_mono (d ∷ n) (c ∷ (front ++ (d ∷ n))) rest
            (ap (λ t. starts_with (d ∷ n) (c ∷ t)) (append_assoc front (d ∷ n) rest ∙ sym q) ∙ e))
          p,
    )

pub position-Split : (d : ℕ) (n s : Text) (i : ℕ) → position (d ∷ n) s ≡ some i → Split (d ∷ n) s i
unfolding position
position-Split d n [] i h = cc
position-Split d n (c ∷ s) i h =
    Split-step d n c s i (starts_with (d ∷ n) (c ∷ s)) (position (d ∷ n) s) refl
      (λ j e. position-Split d n s j e) h

-- Behind `pre`, the search finds what a search of the rest finds.
pub find-append :
    (pre s needle : Text)
    → find (pre ++ s) needle (length pre) ≡ moved (length pre) (position needle s)
unfolding find
find-append pre s needle = rw (drop-length_append pre s, length_leb) refl
  where
    length_leb : leb (length pre) (length (pre ++ s)) ≡ true
    length_leb = ground (arith, length-append pre s)

pub slice-append :
    (pre front rest : Text) (to : ℕ)
    → to ≡ length pre + length front
    → slice (pre ++ (front ++ rest)) (length pre) to ≡ front
slice-append pre front rest to e =
    rw drop-length_append
      (ap (λ k. take k (front ++ rest)) (omega arith) ∙ take-length_append front rest)
