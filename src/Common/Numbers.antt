-- ===== src/Common/Numbers.antt =====
-- Machine integers read from text: `usize::from_str` and `i32::from_str` of Rust's standard library.
use Prim.Native.Nat.{ℕ, ◌+◌, ◌-◌, ◌*◌, ◌^◌, zero, suc, ◌%◌}
use mathlib.Core.Option.{Option, none, some}
use mathlib.Core.List.{[], ◌∷◌}
use sipi.Common.Tests.{ltb, ◌==◌, if◌then◌else◌}
use sipi.Common.Texts.{Text, is_ascii_digit}

-- `negsuc n` is -(n + 1).
pub data ℤ : Type 0 where
  pos : ℕ → ℤ
  negsuc : ℕ → ℤ

abbrev pub u64_mod : ℕ
u64_mod = 2 ^ 64

-- `fetch_add(1)` and `fetch_sub(1)` of an atomic `u64` wrap.
abbrev pub fetch_add : ℕ → ℕ
fetch_add n = (n + 1) % u64_mod

abbrev pub fetch_sub : ℕ → ℕ
fetch_sub n = (n + u64_mod - 1) % u64_mod

-- The digits of a number below the limit, all of them digits; `none` on overflow too.
unfoldable pub parse_digits : ℕ → ℕ → Text → Option ℕ
parse_digits limit acc [] = some acc
parse_digits limit acc (c ∷ s) =
    let v = acc * 10 + (c - b'0') in
    let rest = parse_digits limit v s in
    if is_ascii_digit c then (if ltb v limit then rest else none) else none

abbrev nonempty_digits : ℕ → Text → Option ℕ
nonempty_digits limit [] = none
nonempty_digits limit (c ∷ s) = parse_digits limit 0 (c ∷ s)

-- `usize` and `u64`, on a 64-bit target: an optional `+`, then digits.
unfoldable pub parse_usize : Text → Option ℕ
unfolding parse_digits
parse_usize [] = none
parse_usize (c ∷ s) =
    if c == b'+' then nonempty_digits u64_mod s else parse_digits u64_mod 0 (c ∷ s)

-- `u32`.
unfoldable pub parse_u32 : Text → Option ℕ
unfolding parse_digits
parse_u32 [] = none
parse_u32 (c ∷ s) =
    if c == b'+' then nonempty_digits (2 ^ 32) s else parse_digits (2 ^ 32) 0 (c ∷ s)

abbrev as_pos : Option ℕ → Option ℤ
as_pos none = none
as_pos (some n) = some (pos n)

abbrev as_neg : Option ℕ → Option ℤ
as_neg none = none
as_neg (some zero) = some (pos 0)
as_neg (some (suc n)) = some (negsuc n)

-- `i32`: an optional sign, then digits of a number in range.
unfoldable pub parse_i32 : Text → Option ℤ
unfolding parse_digits
parse_i32 [] = none
parse_i32 (c ∷ s) =
    if c == b'-'
    then as_neg (nonempty_digits (2 ^ 31 + 1) s)
    else if c == b'+'
    then as_pos (nonempty_digits (2 ^ 31) s)
    else as_pos (parse_digits (2 ^ 31) 0 (c ∷ s))

-- `i64`.
unfoldable pub parse_i64 : Text → Option ℤ
unfolding parse_digits
parse_i64 [] = none
parse_i64 (c ∷ s) =
    if c == b'-'
    then as_neg (nonempty_digits (2 ^ 63 + 1) s)
    else if c == b'+'
    then as_pos (nonempty_digits (2 ^ 63) s)
    else as_pos (parse_digits (2 ^ 63) 0 (c ∷ s))

-- `v.checked_mul(m)` of an `i64`, for a positive `m`.
unfoldable pub checked_mul : ℤ → ℕ → Option ℤ
checked_mul (pos n) m = if ltb (n * m) (2 ^ 63) then some (pos (n * m)) else none
checked_mul (negsuc n) m = if ltb (2 ^ 63) (suc n * m) then none else some (negsuc (suc n * m - 1))
