-- ===== src/Info.antt =====
-- The pyramid of an image's info.json: server-rs/src/info.rs.
pub mod Pyramid
pub mod Native
pub mod Json
pub mod Documents
pub mod Knora
pub mod Auth
pub mod Service
mod Tests
use sipi.Common.{
  ℕ, zero, suc, ◌+◌, ◌-◌, ◌*◌, ◌/◌, ◌%◌, ◌^◌, List, [], ◌∷◌, ◌++◌, map, if◌then◌else◌, ltb, min,
  max, u64_mod,
}

-- `u64::from(tile) << n`.
abbrev pub shl : ℕ → ℕ → ℕ
shl tile n = tile * 2 ^ n % u64_mod

-- The loop of `levels` from `n` on, with fuel.
unfoldable pub levels_from : ℕ → ℕ → ℕ → ℕ → ℕ
levels_from zero dim tile n = n
levels_from (suc fuel) dim tile n =
    let rest = levels_from fuel dim tile (n + 1) in if ltb (shl tile n) dim then rest else n

-- A dimension is below 2 ^ 32, so that 33 rounds are enough.
unfoldable pub levels : ℕ → ℕ → ℕ
unfolding levels_from
levels dim tile = levels_from 33 dim tile 0

-- `(0..=n).map(|i| 1 << i)`.
unfoldable pub powers_to : ℕ → List ℕ
powers_to zero = 1 ∷ []
powers_to (suc n) = powers_to n ++ 2 ^ suc n ∷ []

unfoldable pub pyramid_scale_factors : ℕ → ℕ → ℕ → ℕ → List ℕ
unfolding levels powers_to
pyramid_scale_factors width height tile_w tile_h =
    powers_to (min (max (levels width tile_w) (levels height tile_h)) 31)

abbrev pub reversed : List ℕ → List ℕ
reversed [] = []
reversed (x ∷ xs) = reversed xs ++ x ∷ []

-- `n.div_ceil(d)`, for a divisor that is not 0.
abbrev pub div_ceil : ℕ → ℕ → ℕ
div_ceil n d = (n + (d - 1)) / d

-- The pairs of a width and a height.
unfoldable pub sizes_for : ℕ → ℕ → List ℕ → List (ℕ × ℕ)
sizes_for width height scale_factors =
    map (λ sf. (div_ceil width sf, div_ceil height sf)) (reversed scale_factors)
