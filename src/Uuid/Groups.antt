-- ===== src/Uuid/Groups.antt =====
-- A UUID is read back from its hyphenated form.
use sipi.Common.{
  ℕ, zero, suc, ◌+◌, ◌*◌, ◌/◌, ◌%◌, ◌^◌, ◌<◌, [], ◌∷◌, true, false, some, Text, length, take, drop,
  ltb, ◌==◌, ◌≡◌, refl, ap, ◌∙◌, arith, u64_mod, lt→ltb,
}
use sipi.Uuid.{SoleUuid}
use sipi.Uuid.Hyphens.{
  hex_digit, padded_hex, hyphenated, without_dashes, value16, hex_from, from_str_radix, has_shape,
  from_hyphenated,
}

hex_digit-dash : (d : ℕ) → d < 16 → (hex_digit d == b'-') ≡ false
hex_digit-dash d h = ground arith

hex_digit-plus : (d : ℕ) → d < 16 → (hex_digit d == b'+') ≡ false
hex_digit-plus d h = ground arith

value16-hex_digit : (d : ℕ) → d < 16 → value16 (hex_digit d) ≡ some d
unfolding value16
value16-hex_digit d h = ground arith

without_dashes-digit :
    (d : ℕ) (s : Text) → d < 16 → without_dashes (hex_digit d ∷ s) ≡ hex_digit d ∷ without_dashes s
unfolding without_dashes
without_dashes-digit d s h = rw (without_dashes, hex_digit-dash d h) refl

without_dashes-padded_hex :
    (n v : ℕ) (s : Text) → without_dashes (padded_hex n v s) ≡ padded_hex n v (without_dashes s)
unfolding padded_hex
without_dashes-padded_hex zero v s = refl
without_dashes-padded_hex (suc n) v s =
    without_dashes-padded_hex n (v / 16) (hex_digit (v % 16) ∷ s)
    ∙ ap (padded_hex n (v / 16)) (without_dashes-digit (v % 16) s (omega arith))

-- A group of digits, with the dash behind it.
group :
    (n v : ℕ) (s t : Text)
    → without_dashes s ≡ t
    → without_dashes (padded_hex n v (b'-' ∷ s)) ≡ padded_hex n v t
unfolding without_dashes
group n v s t h = without_dashes-padded_hex n v (b'-' ∷ s) ∙ ap (padded_hex n v) h

abbrev hex_of : SoleUuid → Text
hex_of u = padded_hex 8 (u.ab / 2 ^ 32) (
    padded_hex 4 (u.ab / 2 ^ 16 % 2 ^ 16) (
      padded_hex 4 (u.ab % 2 ^ 16)
        (padded_hex 4 (u.cd / 2 ^ 48) (padded_hex 12 (u.cd % 2 ^ 48) []))))

without_dashes-hyphenated : (u : SoleUuid) → without_dashes (hyphenated u) ≡ hex_of u
unfolding hyphenated without_dashes
without_dashes-hyphenated u =
    let node = u.cd % 2 ^ 48 in
    let clock = u.cd / 2 ^ 48 in
    let high = u.ab % 2 ^ 16 in
    let mid = u.ab / 2 ^ 16 % 2 ^ 16 in
    let s4 = padded_hex 4 clock (b'-' ∷ padded_hex 12 node []) in
    let s3 = padded_hex 4 high (b'-' ∷ s4) in
    let s2 = padded_hex 4 mid (b'-' ∷ s3) in
    let t4 = padded_hex 4 clock (padded_hex 12 node []) in
    let t3 = padded_hex 4 high t4 in
    group 8 (u.ab / 2 ^ 32) s2 (padded_hex 4 mid t3) (
      group 4 mid s3 t3 (
        group 4 high s4 t4 (
          group 4 clock (padded_hex 12 node []) (padded_hex 12 node [])
            (without_dashes-padded_hex 12 node []))))

has_shape-hyphenated : (u : SoleUuid) → has_shape (hyphenated u) ≡ true
unfolding has_shape hyphenated
has_shape-hyphenated u = refl

hex_from-step :
    (w d : ℕ) (s : Text)
    → d < 16
    → w * 16 + d < u64_mod
    → hex_from w (hex_digit d ∷ s) ≡ hex_from (w * 16 + d) s
unfolding hex_from
hex_from-step w d s h b =
    let f : ltb (w * 16) u64_mod ≡ true = lt→ltb (w * 16) u64_mod (omega arith) in
    let g : ltb (w * 16 + d) u64_mod ≡ true = lt→ltb (w * 16 + d) u64_mod b in
    rw (hex_from, value16-hex_digit d h, f, g) refl

-- A number that so many digits hold, and another one shifted by them.
abbrev Fits : ℕ → ℕ → Type 0
Fits zero v = v ≡ 0
Fits (suc n) v = Fits n (v / 16)

abbrev shifted_by : ℕ → ℕ → ℕ
shifted_by zero w = w
shifted_by (suc n) w = shifted_by n w * 16

hex_from-padded_hex :
    (n v w : ℕ) (s : Text)
    → Fits n v
    → shifted_by n w + v < u64_mod
    → hex_from w (padded_hex n v s) ≡ hex_from (shifted_by n w + v) s
unfolding padded_hex
hex_from-padded_hex zero v w s f b = ap (λ x. hex_from x s) (omega (arith, f))
hex_from-padded_hex (suc n) v w s f b =
    hex_from-padded_hex n (v / 16) w (hex_digit (v % 16) ∷ s) f (omega (arith, b))
    ∙ hex_from-step (shifted_by n w + v / 16) (v % 16) s (omega arith) (omega (arith, b))
    ∙ ap (λ x. hex_from x s) (omega arith)

read_group :
    (n v w x : ℕ) (s : Text)
    → Fits n v
    → shifted_by n w + v ≡ x
    → x < u64_mod
    → hex_from w (padded_hex n v s) ≡ hex_from x s
read_group n v w x s f e b =
    hex_from-padded_hex n v w s f (omega (arith, e, b)) ∙ ap (λ y. hex_from y s) e

no_sign :
    (d c : ℕ) (s : Text)
    → d < 16
    → from_str_radix (hex_digit d ∷ c ∷ s) ≡ hex_from 0 (hex_digit d ∷ c ∷ s)
unfolding from_str_radix
no_sign d c s h = rw (hex_digit-plus d h) refl

first_half : (u : SoleUuid) → u.ab < u64_mod → from_str_radix (take 16 (hex_of u)) ≡ some u.ab
unfolding padded_hex hex_from
first_half u h =
    let low = u.ab / 2 ^ 32 in
    let mid = u.ab / 2 ^ 16 % 2 ^ 16 in
    let high = u.ab % 2 ^ 16 in
    no_sign _ _ _ (omega arith)
    ∙ read_group 8 low 0 low (padded_hex 4 mid (padded_hex 4 high [])) (omega arith) (omega arith)
        (omega arith)
    ∙ read_group 4 mid low (u.ab / 2 ^ 16) (padded_hex 4 high []) (omega arith) (omega arith)
        (omega arith)
    ∙ read_group 4 high (u.ab / 2 ^ 16) u.ab [] (omega arith) (omega arith) h

second_half : (u : SoleUuid) → u.cd < u64_mod → from_str_radix (drop 16 (hex_of u)) ≡ some u.cd
unfolding padded_hex hex_from
second_half u h =
    let clock = u.cd / 2 ^ 48 in
    let node = u.cd % 2 ^ 48 in
    no_sign _ _ _ (omega arith)
    ∙ read_group 4 clock 0 clock (padded_hex 12 node []) (omega arith) (omega arith) (omega arith)
    ∙ read_group 12 node clock u.cd [] (omega arith) (omega arith) h

length-hex_of : (u : SoleUuid) → length (hex_of u) ≡ 32
unfolding padded_hex
length-hex_of u = refl

-- A UUID of two halves below 2^64 is read back from its hyphenated form.
pub from_hyphenated-hyphenated :
    (u : SoleUuid) → u.ab < u64_mod → u.cd < u64_mod → from_hyphenated (hyphenated u) ≡ some u
unfolding from_hyphenated
from_hyphenated-hyphenated u a b =
    rw
      (
        from_hyphenated,
        has_shape-hyphenated u,
        without_dashes-hyphenated u,
        length-hex_of u,
        first_half u a,
        second_half u b,
      )
      refl
