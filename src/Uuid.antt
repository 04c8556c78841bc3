-- ===== src/Uuid.antt =====
-- UUIDs of scripts: src/scripting/rust/bindings/helpers.rs. A `u64` is a number below 2 ^ 64, and `none`
-- stands for what is malformed or overflows.
pub mod Digits
pub mod Rounds
pub mod Hyphens
pub mod Groups
mod Tests
use sipi.Common.{
  ℕ, zero, suc, ◌+◌, ◌-◌, ◌*◌, ◌/◌, ◌%◌, ◌^◌, List, [], ◌∷◌, ◌++◌, Bool, true, false, ◌&&◌, ◌||◌,
  Option, none, some, Text, codes, is_empty, length, split_once, and_then, ltb, leb, ◌==◌, u64_mod,
  if◌then◌else◌,
}

pub record SoleUuid : Type 0 where
  pub ab : ℕ
  pub cd : ℕ

-- `BASE62[d]`.
abbrev pub digit62 : ℕ → ℕ
digit62 d = if ltb d 10 then 48 + d else if ltb d 36 then 55 + d else 61 + d

-- The digits of `v`, the least significant first, before those that are there; 11 rounds are enough.
unfoldable pub encode_from : ℕ → ℕ → Text → Text
encode_from zero v acc = acc
encode_from (suc fuel) v acc =
    let acc = digit62 (v % 62) ∷ acc in
    let rest = encode_from fuel (v / 62) acc in if v / 62 == 0 then acc else rest

unfoldable pub encode : ℕ → Text
unfolding encode_from
encode v = encode_from 11 v []

unfoldable pub base62 : SoleUuid → Text
unfolding encode
base62 u = encode u.ab ++ b'-' ∷ encode u.cd

unfoldable pub value62 : ℕ → Option ℕ
value62 b =
    if leb 48 b && leb b 57
    then some (b - 48)
    else if leb 65 b && leb b 90
    then some (b - 65 + 10)
    else if leb 97 b && leb b 122
    then some (b - 97 + 10 + 26)
    else none

-- `checked_mul` and `checked_add` on a `u64`.
abbrev pub checked : ℕ → Option ℕ
checked n = if ltb n u64_mod then some n else none

unfoldable pub decode_from : ℕ → Text → Option ℕ
unfolding value62
decode_from v [] = some v
decode_from v (b ∷ s) = elim (value62 b) [
  | none ↦ none
  | some digit ↦ elim (checked (v * 62)) [
    | none ↦ none
    | some w ↦ elim (checked (w + digit)) [ none ↦ none | some x ↦ decode_from x s ]
  ]
]

unfoldable pub decode : Text → Option ℕ
unfolding decode_from
decode part = if is_empty part || ltb 11 (length part) then none else decode_from 0 part

abbrev pub has_dash : Text → Bool
has_dash [] = false
has_dash (c ∷ s) = c == b'-' || has_dash s

unfoldable pub from_base62 : Text → Option SoleUuid
unfolding decode
from_base62 s = and_then (split_once b'-' s) λ (ab_part, cd_part).
    if has_dash cd_part
    then none
    else and_then (decode ab_part)
        λ ab. and_then (decode cd_part) λ cd. some (record { ab = ab; cd = cd })

-- The version and the variant of a random UUID: bits 12 to 15 of `ab` are 4, the two high bits of `cd` 2.
unfoldable pub new_v4 : ℕ → ℕ → SoleUuid
new_v4 ab cd = record {
  ab = ab / 2 ^ 16 * 2 ^ 16 + 4 * 2 ^ 12 + ab % 2 ^ 12;
  cd = 2 ^ 63 + cd % 2 ^ 62;
}
