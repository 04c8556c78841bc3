-- ===== src/Uuid/Digits.antt =====
-- The digits of base 62.
use sipi.Common.{
  ℕ, zero, suc, ◌+◌, ◌*◌, ◌/◌, ◌%◌, ◌<◌, ◌≤◌, [], ◌∷◌, true, false, some, Text, length, ◌≡◌, ◌≢◌,
  refl, ◌∙◌, arith, inl, inr, Lacks, ltb, ◌==◌, u64_mod, Bool-cases, lt→ltb, is_empty,
}
use sipi.Uuid.{digit62, encode_from, encode, value62, decode_from, decode}

value62-digit62 : (d : ℕ) → d < 62 → value62 (digit62 d) ≡ some d
unfolding value62
value62-digit62 d h = ground arith

digit62-dash : (d : ℕ) → d < 62 → digit62 d ≢ b'-'
digit62-dash d h e = ground arith

-- A number that so many digits hold.
abbrev Room : ℕ → ℕ → Type 0
Room zero v = v ≡ 0
Room (suc fuel) v = Room fuel (v / 62)

decode_from-step :
    (w d v : ℕ) (acc : Text)
    → d < 62
    → w * 62 + d ≡ v
    → v < u64_mod
    → decode_from w (digit62 d ∷ acc) ≡ decode_from v acc
unfolding decode_from
decode_from-step w d v acc h e b =
    let f : ltb (w * 62) u64_mod ≡ true = lt→ltb (w * 62) u64_mod (omega arith) in
    let g : ltb (w * 62 + d) u64_mod ≡ true = lt→ltb (w * 62 + d) u64_mod (omega arith) in
    rw (decode_from, value62-digit62 d h, f, g, e) refl

decode_from-encode_from :
    (fuel v : ℕ) (acc : Text)
    → v < u64_mod
    → Room fuel v
    → decode_from 0 (encode_from fuel v acc) ≡ decode_from v acc
unfolding encode_from
decode_from-encode_from zero v acc b r = rw r refl
decode_from-encode_from (suc fuel) v acc b r =
    let step = decode_from-step (v / 62) (v % 62) v acc (omega arith) (omega arith) b in
    elim (Bool-cases (v / 62 == 0)) [
      | inl e ↦ let z : v / 62 ≡ 0 = ground (arith, e) in rw (encode_from, e) (rw z at step)
      | inr e ↦
          rw (encode_from, e)
            (decode_from-encode_from fuel (v / 62) (digit62 (v % 62) ∷ acc) (omega arith) r ∙ step)
    ]

length-encode_from :
    (fuel v : ℕ) (acc : Text)
    → (length acc ≤ length (encode_from fuel v acc))
      × (length (encode_from fuel v acc) ≤ fuel + length acc)
unfolding encode_from
length-encode_from zero v acc = (omega arith, omega arith)
length-encode_from (suc fuel) v acc = elim (Bool-cases (v / 62 == 0)) [
  | inl e ↦ rw (encode_from, e) (omega arith, omega arith)
  | inr e ↦
      let (a, b) = length-encode_from fuel (v / 62) (digit62 (v % 62) ∷ acc) in
      rw (encode_from, e) (omega arith, omega arith)
]

encode_from-Lacks : (fuel v : ℕ) (acc : Text) → Lacks b'-' acc → Lacks b'-' (encode_from fuel v acc)
unfolding encode_from
encode_from-Lacks zero v acc h = h
encode_from-Lacks (suc fuel) v acc h =
    let here : Lacks b'-' (digit62 (v % 62) ∷ acc) = (digit62-dash (v % 62) (omega arith), h) in
    elim (Bool-cases (v / 62 == 0)) [
      | inl e ↦ rw (encode_from, e) here
      | inr e ↦ rw (encode_from, e) (encode_from-Lacks fuel (v / 62) (digit62 (v % 62) ∷ acc) here)
    ]

pub encode-Lacks : (v : ℕ) → Lacks b'-' (encode v)
unfolding encode
encode-Lacks v = encode_from-Lacks 11 v [] tt

first_digit : (v : ℕ) → 1 ≤ length (encode v)
unfolding encode encode_from
first_digit v = elim (Bool-cases (v / 62 == 0)) [
  | inl e ↦ rw (encode, encode_from, e) (omega arith)
  | inr e ↦
      let (a, b) = length-encode_from 10 (v / 62) (digit62 (v % 62) ∷ []) in
      rw (encode, encode_from, e) (omega arith)
]

is_empty-length : (s : Text) → 1 ≤ length s → is_empty s ≡ false
is_empty-length [] h = elim h [ ]
is_empty-length (c ∷ s) h = refl

pub decode-encode : (v : ℕ) → v < u64_mod → decode (encode v) ≡ some v
unfolding decode encode
decode-encode v b =
    let (p, q) = length-encode_from 11 v [] in
    let e = is_empty-length (encode v) (first_digit v) in
    let f : ltb 11 (length (encode_from 11 v [])) ≡ false = ground arith in
    rw (decode, encode, e, f) (decode_from-encode_from 11 v [] b (omega arith))
