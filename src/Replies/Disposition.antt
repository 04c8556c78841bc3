-- ===== src/Replies/Disposition.antt =====
-- The file name that a client reads off a Content-Disposition.
use sipi.Common.{
  ℕ, ◌+◌, ◌-◌, ◌*◌, ◌/◌, ◌%◌, ◌<◌, [], ◌∷◌, ◌++◌, Bool, true, false, Option, none, some, Text,
  codes, is_empty, ◌≡◌, refl, ap, arith, ltb, ◌==◌, if◌then◌else◌, strip_prefix, All, Bool-cases,
  and_then, inl, inr, ◌||◌, ◌&&◌, leb, not,
}
use sipi.Replies.{
  safe_bytes, quote, percent_encode, disposition_text, all_below, upper_hex, is_unreserved,
}

abbrev cons? : ℕ → Option Text → Option Text
cons? b none = none
cons? b (some s) = some (b ∷ s)

-- A quoted string up to the quotation mark that ends the text; a backslash escapes the next byte.
abbrev pub unquote : Bool → Text → Option Text
unquote escaped [] = none
unquote true (c ∷ s) = cons? c (unquote false s)
unquote false (c ∷ s) =
    let rest = unquote false s in
    let escape = unquote true s in
    if c == b'"'
    then if is_empty s then some [] else none
    else if c == 92
    then escape
    else cons? c rest

-- In an escape of the percent encoding: nothing read of it, the sign, or the first digit.
pub data Escape : Type 0 where
  outside sign : Escape
  digit : ℕ → Escape

abbrev unhex : ℕ → ℕ
unhex c = if ltb c 58 then c - 48 else c - 55

abbrev pub percent_decode : Escape → Text → Option Text
percent_decode outside [] = some []
percent_decode sign [] = none
percent_decode (digit n) [] = none
percent_decode outside (c ∷ s) =
    let rest = percent_decode outside s in
    let escape = percent_decode sign s in if c == b'%' then escape else cons? c rest
percent_decode sign (c ∷ s) = percent_decode (digit (unhex c)) s
percent_decode (digit n) (c ∷ s) = cons? (n * 16 + unhex c) (percent_decode outside s)

quote-read : (s : Text) → unquote false (quote s ++ b'"' ∷ []) ≡ some s
unfolding quote
quote-read [] = refl
quote-read (b ∷ s) = elim (Bool-cases (b == b'"' || b == 92)) [
  | inl e ↦ rw (quote, e) (ap (cons? b) (quote-read s))
  | inr e ↦
      let f : (b == b'"') ≡ false = ground (arith, e) in
      let g : (b == 92) ≡ false = ground (arith, e) in
      rw (quote, e, unquote, f, g) (ap (cons? b) (quote-read s))
]

unhex-upper_hex : (d : ℕ) → d < 16 → unhex (upper_hex d) ≡ d
unhex-upper_hex d h = ground arith

percent_encode-read :
    (s : Text) → All (λ b. b < 256) s → percent_decode outside (percent_encode s) ≡ some s
unfolding percent_encode
percent_encode-read [] h = refl
percent_encode-read (b ∷ s) h = elim (Bool-cases (is_unreserved b)) [
  | inl e ↦
      let f : (b == b'%') ≡ false = ground (arith, e) in
      rw (percent_encode, e, percent_decode, f) (ap (cons? b) (percent_encode-read s h.1))
  | inr e ↦
      let high = unhex-upper_hex (b / 16) (omega (arith, h.0)) in
      let low = unhex-upper_hex (b % 16) (omega arith) in
      let sum : b / 16 * 16 + b % 16 ≡ b = omega arith in
      rw (percent_encode, e, percent_decode, high, low, sum)
        (ap (cons? b) (percent_encode-read s h.1))
]

safe_bytes-All : (P : ℕ → Type 0) (s : Text) → All P s → All P (safe_bytes s)
unfolding safe_bytes
safe_bytes-All P [] h = tt
safe_bytes-All P (b ∷ s) h = elim (Bool-cases (leb 32 b && not (b == 127))) [
  | inl e ↦ rw (safe_bytes, e) (h.0, safe_bytes-All P s h.1)
  | inr e ↦ rw (safe_bytes, e) (safe_bytes-All P s h.1)
]

-- The name in the value of a Content-Disposition.
abbrev pub file_name : Text → Option Text
file_name value = elim (strip_prefix (codes "inline; filename=" ++ b'"' ∷ []) value) [
  | some rest ↦ unquote false rest
  | none ↦
      and_then (strip_prefix (codes "inline; filename*=UTF-8''") value) (percent_decode outside)
]

-- A client that undoes the quoting, or the percent encoding, reads the identifier without its control
-- characters off the value of Content-Disposition: no quotation mark, backslash or byte
-- above 126 in it ends the name early or adds to it.
pub file_name-disposition_text :
    (identifier : Text)
    → All (λ b. b < 256) identifier
    → file_name (disposition_text identifier) ≡ some (safe_bytes identifier)
unfolding disposition_text
file_name-disposition_text identifier h =
    elim (Bool-cases (all_below 127 (safe_bytes identifier))) [
      | inl e ↦ rw (disposition_text, e) (quote-read (safe_bytes identifier))
      | inr e ↦
          rw (disposition_text, e)
            (percent_encode-read (safe_bytes identifier)
              (safe_bytes-All (λ b. b < 256) identifier h))
    ]
