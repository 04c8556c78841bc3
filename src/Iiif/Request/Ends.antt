-- ===== src/Iiif/Request/Ends.antt =====
-- The last segments of a request, read off a list that is split there.
use sipi.Common.{
  ℕ, ◌+◌, ◌-◌, ◌≤◌, List, [], ◌∷◌, ◌++◌, Option, Text, ◌≡◌, refl, ap, ◌∙◌, arith, length,
  length-append, get_elem?, take, unwrap_or, join, ok, take-length_append,
}
use sipi.Iiif.Request.{from_end, but_last, plain_prefix}
use native.Mathlib.Decide.{dec_le}

get_elem?-append {ℓ} :
    {A : Type ℓ} (pre xs : List A) (j : ℕ) → get_elem? (pre ++ xs) (length pre + j) ≡ get_elem? xs j
get_elem?-append [] xs j = ap (get_elem? xs) (omega arith)
get_elem?-append (x ∷ pre) xs j = ground (arith, get_elem?-append pre xs j)

-- `n - k` for a list with `k + j` elements behind `pre`.
at_end :
    (pre xs : List Text) (j k : ℕ) → length xs ≡ j + k → length (pre ++ xs) - k ≡ length pre + j
at_end pre xs j k e = omega (arith, length-append pre xs)

pub from_end-append :
    (pre xs : List Text) (j k : ℕ)
    → length xs ≡ j + k
    → from_end (pre ++ xs) k ≡ unwrap_or (get_elem? xs j) []
from_end-append pre xs j k e =
    ap (λ (i : ℕ). unwrap_or (get_elem? (pre ++ xs) i) []) (at_end pre xs j k e)
    ∙ ap (λ (o : Option Text). unwrap_or o []) (get_elem?-append pre xs j)

pub but_last-append : (pre xs : List Text) (k : ℕ) → length xs ≡ k → but_last (pre ++ xs) k ≡ pre
but_last-append pre xs k e =
    ap (λ (i : ℕ). take i (pre ++ xs)) (at_end pre xs 0 k (omega arith) ∙ omega arith)
    ∙ take-length_append pre xs

-- The prefix is what stands before the last `k` segments.
pub plain_prefix-append :
    (pre xs : List Text) (k : ℕ) → length xs ≡ k → plain_prefix (pre ++ xs) k ≡ ok (join b'/' pre)
unfolding plain_prefix
plain_prefix-append [] xs k e = ground arith
plain_prefix-append (t ∷ pre) xs k e =
    rw (but_last-append (t ∷ pre) xs k e) (ground (arith, length-append pre xs))

-- A list of at least `k` elements, split before the last `k`.
pub record Split (k : ℕ) (parts : List Text) : Type 0 where
  pub front : List Text
  pub back : List Text
  pub length_back : length back ≡ k
  pub whole : parts ≡ front ++ back

pub before_last-Split : (k : ℕ) (parts : List Text) → k ≤ length parts → Split k parts
before_last-Split k [] h = record { front = []; back = []; length_back = omega arith; whole = refl }
before_last-Split k (t ∷ ts) h = elim (dec_le k (length ts)) [
  | yes p ↦
      let s = before_last-Split k ts p in
      record {
        front = t ∷ s.front;
        back = s.back;
        length_back = s.length_back;
        whole = ap (◌∷◌ t) s.whole;
      }
  | no n ↦ record { front = []; back = t ∷ ts; length_back = omega arith; whole = refl }
]
