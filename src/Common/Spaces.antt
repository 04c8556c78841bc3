-- ===== src/Common/Spaces.antt =====
-- `trim` of Rust's `str`, on the UTF-8 bytes of a text: white space is what Unicode calls so.
use Prim.Native.Nat.{ℕ, ◌+◌}
use mathlib.Core.List.{[], ◌∷◌, reverse}
use mathlib.Core.Bool.{Bool, ◌&&◌, ◌||◌}
use sipi.Common.Tests.{leb, ◌==◌, if◌then◌else◌}
use sipi.Common.Lists.{drop}
use sipi.Common.Texts.{Text}

-- White space of one byte, of two and of three.
abbrev one_byte : ℕ → Bool
one_byte a = a == 32 || leb 9 a && leb a 13

abbrev two_bytes : ℕ → ℕ → Bool
two_bytes a b = a == 194 && (b == 133 || b == 160)

abbrev three_bytes : ℕ → ℕ → ℕ → Bool
three_bytes a b c =
    a == 225 && b == 154 && c == 128
    || a == 226 && b == 128 && (leb 128 c && leb c 138 || c == 168 || c == 169 || c == 175)
    || a == 226 && b == 129 && c == 159
    || a == 227 && b == 128 && c == 128

-- The bytes of white space at the front.
leading : (ℕ → ℕ → Bool) → (ℕ → ℕ → ℕ → Bool) → Text → ℕ
leading two three [] = 0
leading two three (a ∷ []) = if one_byte a then 1 else 0
leading two three (a ∷ b ∷ []) =
    let one = 1 + leading two three (b ∷ []) in if one_byte a then one else if two a b then 2 else 0
leading two three (a ∷ b ∷ c ∷ s) =
    let after_one = 1 + leading two three (b ∷ c ∷ s) in
    let after_two = 2 + leading two three (c ∷ s) in
    let after_three = 3 + leading two three s in
    if one_byte a
    then after_one
    else if two a b
    then after_two
    else if three a b c
    then after_three
    else 0

unfoldable pub trim_start : Text → Text
unfolding leading
trim_start s = drop (leading two_bytes three_bytes s) s

unfoldable pub trim : Text → Text
unfolding trim_start leading
trim s =
    let r = reverse (trim_start s) in
    reverse (drop (leading (λ a b. two_bytes b a) (λ a b c. three_bytes c b a) r) r)
