-- ===== src/Ranges.antt =====
-- Byte ranges and the texts of a path, server-rs/src/routes.rs. The percent decoder is a parameter.
pub mod Bounds
mod Tests
use sipi.Common.{
  ℕ, ◌-◌, ◌+◌, ◌/◌, ◌%◌, zero, suc, List, [], ◌∷◌, Bool, true, false, ◌||◌, Option, none, some,
  Text, codes, strip_prefix, split, split_once, to_ascii_lowercase, is_ascii_digit, drop, min, ltb,
  leb, ◌==◌, unwrap_or, and_then, if◌then◌else◌, parse_usize,
}
use sipi.Replies.{trim_start, trim_end, last}
use sipi.Serve.Seam.{rfind}

unfoldable pub digits_of : Text → Text
digits_of [] = []
digits_of (c ∷ s) = let rest = digits_of s in if is_ascii_digit c then c ∷ rest else []

unfoldable pub leading_u64 : Text → Option ℕ
unfolding digits_of parse_usize
leading_u64 s = parse_usize (digits_of s)

-- The range, with an end that is left out or beyond the file at its last byte.
unfoldable pub clamp_range : ℕ → ℕ → ℕ → Option (ℕ × ℕ)
clamp_range start end_ fsize =
    if leb fsize start
    then none
    else let e = min end_ (fsize - 1) in if ltb e start then none else some (start, e)

unfoldable pub parse_byte_range : Text → ℕ → Option (ℕ × ℕ)
unfolding leading_u64 clamp_range trim_start trim_end
parse_byte_range raw fsize =
    and_then (strip_prefix (codes "bytes=") (trim_end (trim_start raw))) λ body.
      and_then (split_once b'-' (trim_start body)) λ (s, e).
        and_then (leading_u64 (trim_start s))
          λ start. clamp_range start (unwrap_or (leading_u64 (trim_start e)) (fsize - 1)) fsize

-- `format!("{n}")`: 20 digits hold a `u64`.
unfoldable pub decimal_from : ℕ → ℕ → Text → Text
decimal_from zero n acc = acc
decimal_from (suc fuel) n acc =
    let rest = decimal_from fuel (n / 10) ((48 + n % 10) ∷ acc) in
    if ltb n 10 then (48 + n) ∷ acc else rest

unfoldable pub decimal : ℕ → Text
unfolding decimal_from
decimal n = decimal_from 20 n []

-- The part after the last dot of the last component, in lower case.
unfoldable pub extension_of : Text → Option Text
unfolding rfind
extension_of path =
    let name = last (split b'/' path) in
    elim (rfind b'.' name) [ none ↦ none | some i ↦ some (to_ascii_lowercase (drop (i + 1) name)) ]

abbrev pub is_ascii_control : ℕ → Bool
is_ascii_control b = ltb b 32 || b == 127

unfoldable pub any_control : Text → Bool
any_control [] = false
any_control (b ∷ s) = is_ascii_control b || any_control s

-- The decoder fails on bytes that are no UTF-8.
unfoldable pub decode_path_suffix : (Text → Option Text) → Text → Option Text
unfolding any_control
decode_path_suffix percent_decode enc =
    and_then (percent_decode enc) λ decoded. if any_control decoded then none else some decoded
