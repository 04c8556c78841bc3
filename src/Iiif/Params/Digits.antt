-- ===== src/Iiif/Params/Digits.antt =====
-- `usize::from_str` on a text of digits is the number that the digits spell, if it fits.
use sipi.Common.{
  ℕ, ◌+◌, ◌-◌, ◌*◌, ◌≤◌, ◌<◌, [], ◌∷◌, none, some, Text, ◌≡◌, refl, if◌then◌else◌, arith, ltb, All,
  parse_usize, parse_digits, u64_mod,
}
use sipi.Iiif.Grammar.Forms.{IsDigit, IsPosint}

-- The number that the digits spell behind `acc`, with no bound.
pub value_from : ℕ → Text → ℕ
value_from acc [] = acc
value_from acc (c ∷ s) = value_from (acc * 10 + (c - b'0')) s

abbrev pub value : Text → ℕ
value = value_from 0

le-value_from : (acc : ℕ) (s : Text) → acc ≤ value_from acc s
unfolding value_from
le-value_from acc [] = omega arith
le-value_from acc (c ∷ s) = omega (arith, le-value_from (acc * 10 + (c - b'0')) s)

parse_digits_lem :
    (limit acc : ℕ) (s : Text)
    → All IsDigit s
    → acc < limit
    → parse_digits limit acc s
      ≡ (if ltb (value_from acc s) limit then some (value_from acc s) else none)
unfolding parse_digits value_from
parse_digits_lem limit acc [] h k = ground arith
parse_digits_lem limit acc (c ∷ s) h k = ground (
  arith,
  parse_digits_lem limit (acc * 10 + (c - b'0')) s h.1,
  le-value_from (acc * 10 + (c - b'0')) s,
)

pub parse_usize_lem :
    (s : Text)
    → IsPosint s
    → parse_usize s ≡ (if ltb (value s) u64_mod then some (value s) else none)
unfolding parse_usize
parse_usize_lem [] h = absurd (h.0 refl)
parse_usize_lem (c ∷ s) h = ground (arith, parse_digits_lem u64_mod 0 (c ∷ s) h.1)
