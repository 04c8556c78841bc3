-- ===== src/Info/Pyramid.antt =====
-- The number of levels is the least one that puts a dimension inside one tile.
use sipi.Common.{
  ℕ, zero, suc, ◌+◌, ◌*◌, ◌^◌, ◌≤◌, ◌<◌, ◌≡◌, Bool-cases, inl, inr, ◌⊎◌, arith, ltb, ltb→lt, refl,
  subst,
}
use native.Mathlib.Nat.{pow-suc, mod-eq_of_lt}
use sipi.Info.{shl, levels_from, levels}

-- No fewer than so many levels do: the level before is too small.
abbrev pub Least : ℕ → ℕ → ℕ → Type 0
Least dim tile n = (n ≡ 0) ⊎ ((m : ℕ) × (n ≡ suc m) × (tile * 2 ^ m < dim))

doubled : (tile m : ℕ) → tile * 2 ^ suc m ≡ 2 * (tile * 2 ^ m)
doubled tile m = grind (arith, pow-suc 2 m)

unwrapped :
    (dim tile n : ℕ) → tile < 2 ^ 32 → dim < 2 ^ 32 → Least dim tile n → shl tile n ≡ tile * 2 ^ n
unwrapped dim tile n t d (inl e) = rw e (mod-eq_of_lt (omega arith))
unwrapped dim tile n t d (inr (m, e, h)) = rw e (mod-eq_of_lt (omega (arith, doubled tile m)))

levels_from_lem :
    (fuel dim tile n : ℕ)
    → 1 ≤ tile
    → tile < 2 ^ 32
    → dim < 2 ^ 32
    → fuel + n ≡ 33
    → Least dim tile n
    → (dim ≤ tile * 2 ^ levels_from fuel dim tile n) × Least dim tile (levels_from fuel dim tile n)
unfolding levels_from
levels_from_lem zero dim tile n o t d f (inl e) = absurd (omega arith)
levels_from_lem zero dim tile n o t d f (inr (m, e, h)) =
    let last : m ≡ 32 = omega arith in
    absurd (omega (arith, subst (λ m. tile * 2 ^ m < dim) last h))
levels_from_lem (suc fuel) dim tile n o t d f l = elim (Bool-cases (ltb (shl tile n) dim)) [
  | inl b ↦ rw b (
      levels_from_lem fuel dim tile (n + 1) o t d (omega arith)
        (inr (n, omega arith, subst (λ k. k < dim) (unwrapped dim tile n t d l) (ltb→lt _ _ b))))
  | inr b ↦
      let w = unwrapped dim tile n t d l in rw b (subst (λ k. dim ≤ k) w (ground (arith, b)), l)
]

-- For a tile that is not empty and a dimension below 2 ^ 32, the loop ends within the fuel: at its
-- level the whole dimension lies inside one tile, and at the level before, if any, it does not.
pub levels-Least :
    (dim tile : ℕ)
    → 1 ≤ tile
    → tile < 2 ^ 32
    → dim < 2 ^ 32
    → (dim ≤ tile * 2 ^ levels dim tile) × Least dim tile (levels dim tile)
unfolding levels
levels-Least dim tile o t d = levels_from_lem 33 dim tile 0 o t d refl (inl refl)
