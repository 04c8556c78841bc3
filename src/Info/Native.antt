-- ===== src/Info/Native.antt =====
-- The native size closes the ladder of the sizes.
use sipi.Common.{
  ℕ, zero, suc, ◌^◌, List, [], ◌∷◌, ◌++◌, map, ◌≡◌, refl, ap, ap₂, ◌∙◌, arith, min, max,
}
use sipi.Info.{div_ceil, levels, powers_to, pyramid_scale_factors, sizes_for, reversed}

powers_to-first : (n : ℕ) → (rest : List ℕ) × (powers_to n ≡ 1 ∷ rest)
unfolding powers_to
powers_to-first zero = ([], refl)
powers_to-first (suc n) =
    let (rest, e) = powers_to-first n in
    (rest ++ 2 ^ suc n ∷ [], ap (λ (xs : List ℕ). xs ++ 2 ^ suc n ∷ []) e)

map-append_last {ℓ} :
    {A : Type ℓ} (f : ℕ → A) (xs : List ℕ) (x : ℕ) → map f (xs ++ x ∷ []) ≡ map f xs ++ f x ∷ []
map-append_last f [] x = refl
map-append_last f (y ∷ xs) x = ap (◌∷◌ (f y)) (map-append_last f xs x)

div_ceil-one : (n : ℕ) → div_ceil n 1 ≡ n
div_ceil-one n = omega arith

-- The sizes of an image's pyramid end with the native size.
pub sizes_for-pyramid_scale_factors :
    (width height tile_w tile_h : ℕ)
    → (front : List (ℕ × ℕ)) × (sizes_for width height
          (pyramid_scale_factors width height tile_w tile_h)
        ≡ front ++ (width, height) ∷ [])
unfolding sizes_for pyramid_scale_factors
sizes_for-pyramid_scale_factors width height tile_w tile_h =
    let (rest, e) = powers_to-first (min (max (levels width tile_w) (levels height tile_h)) 31) in
    let f : ℕ → ℕ × ℕ = λ sf. (div_ceil width sf, div_ceil height sf) in
    (
      map f (reversed rest),
      ap (λ (xs : List ℕ). map f (reversed xs)) e
          ∙ map-append_last f (reversed rest) 1
          ∙ ap (λ (p : ℕ × ℕ). map f (reversed rest) ++ p ∷ [])
              (ap₂ (λ (a b : ℕ). (a, b)) (div_ceil-one width) (div_ceil-one height)),
    )
