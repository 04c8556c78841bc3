-- ===== src/Uuid/Hyphens.antt =====
-- The hyphenated form of UUIDs.
use sipi.Common.{
  ℕ, zero, suc, ◌+◌, ◌-◌, ◌*◌, ◌/◌, ◌%◌, ◌^◌, [], ◌∷◌, Bool, false, ◌&&◌, not, Option, none, some,
  Text, length, get_elem?, take, drop, and_then, ltb, leb, ◌==◌, if◌then◌else◌,
}
use sipi.Uuid.{SoleUuid, checked}

abbrev pub hex_digit : ℕ → ℕ
hex_digit d = if ltb d 10 then 48 + d else 87 + d

-- `{:0nx}` of a number below 16 ^ n, before a text.
unfoldable pub padded_hex : ℕ → ℕ → Text → Text
padded_hex zero v s = s
padded_hex (suc n) v s = padded_hex n (v / 16) (hex_digit (v % 16) ∷ s)

unfoldable pub hyphenated : SoleUuid → Text
unfolding padded_hex
hyphenated u = padded_hex 8 (u.ab / 2 ^ 32) (
    b'-'
    ∷ padded_hex 4 (u.ab / 2 ^ 16 % 2 ^ 16) (
        b'-'
        ∷ padded_hex 4 (u.ab % 2 ^ 16)
            (b'-' ∷ padded_hex 4 (u.cd / 2 ^ 48) (b'-' ∷ padded_hex 12 (u.cd % 2 ^ 48) []))))

unfoldable pub without_dashes : Text → Text
without_dashes [] = []
without_dashes (c ∷ s) = let rest = without_dashes s in if c == b'-' then rest else c ∷ rest

-- `to_digit(16)` of a byte.
unfoldable pub value16 : ℕ → Option ℕ
value16 b =
    if leb 48 b && leb b 57
    then some (b - 48)
    else if leb 65 b && leb b 70
    then some (b - 55)
    else if leb 97 b && leb b 102
    then some (b - 87)
    else none

unfoldable pub hex_from : ℕ → Text → Option ℕ
unfolding value16
hex_from v [] = some v
hex_from v (b ∷ s) = elim (value16 b) [
  | none ↦ none
  | some digit ↦ elim (checked (v * 16)) [
    | none ↦ none
    | some w ↦ elim (checked (w + digit)) [ none ↦ none | some x ↦ hex_from x s ]
  ]
]

abbrev after_sign : ℕ → Text → Option ℕ
after_sign c [] = if c == b'+' then none else hex_from 0 (c ∷ [])
after_sign c (d ∷ s) = if c == b'+' then hex_from 0 (d ∷ s) else hex_from 0 (c ∷ d ∷ s)

-- `u64::from_str_radix(s, 16).ok()`: a sign `+` may stand before the digits.
unfoldable pub from_str_radix : Text → Option ℕ
unfolding hex_from
from_str_radix [] = none
from_str_radix (c ∷ s) = after_sign c s

abbrev is_dash : Option ℕ → Bool
is_dash none = false
is_dash (some c) = c == b'-'

-- Where the dashes must stand.
unfoldable pub has_shape : Text → Bool
has_shape b =
    (length b == 36)
    && is_dash (get_elem? b 8)
    && is_dash (get_elem? b 13)
    && is_dash (get_elem? b 18)
    && is_dash (get_elem? b 23)

unfoldable pub from_hyphenated : Text → Option SoleUuid
unfolding has_shape without_dashes from_str_radix
from_hyphenated s =
    if not (has_shape s)
    then none
    else let hex = without_dashes s in
      if not (length hex == 32)
      then none
      else and_then (from_str_radix (take 16 hex))
          λ ab. and_then (from_str_radix (drop 16 hex)) λ cd. some (record { ab = ab; cd = cd })
