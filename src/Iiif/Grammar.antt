-- ===== src/Iiif/Grammar.antt =====
-- The grammar consumers and the per-segment validators of src/iiifparser/rust/parse.rs.
pub mod Forms
pub mod Consume
pub mod Validators
pub mod Regions
pub mod Sizes
pub mod Tails
pub mod Exact
use sipi.Common.{
  ℕ, zero, suc, ◌+◌, List, [], ◌∷◌, Bool, true, false, ◌&&◌, ◌||◌, not, Option, none, some, Text,
  codes, is_empty, ◌=t=◌, strip_prefix, starts_with, is_ascii_digit, if◌then◌else◌, ltb, ◌==◌, drop,
  and_then, unwrap_or, is_some_and,
}

-- `s.find(|c| !c.is_ascii_digit()).unwrap_or(s.len())`.
pub digits_end : Text → ℕ
digits_end [] = 0
digits_end (c ∷ s) = if is_ascii_digit c then suc (digits_end s) else 0

unfoldable pub consume_posint : Text → Option Text
unfolding digits_end
consume_posint s = let n = digits_end s in if n == 0 then none else some (drop n s)

unfoldable pub consume_posfloat : Text → Option Text
consume_posfloat s = and_then (consume_posint s) λ rest. elim (strip_prefix (codes ".") rest) [
  | some after_dot ↦ consume_posint after_dot
  | none ↦ some rest
]

-- The loop of `is_valid_region`, at round `i` with so many rounds left.
pub valid_fields : Bool → ℕ → ℕ → Text → Option Text
valid_fields is_pct i zero rest = some rest
valid_fields is_pct i (suc left) rest =
    and_then (if ltb 0 i then strip_prefix (codes ",") rest else some rest) λ r.
      and_then (if is_pct then consume_posfloat r else consume_posint r)
        λ r'. valid_fields is_pct (i + 1) left r'

unfoldable pub is_valid_region : Text → Bool
unfolding valid_fields
is_valid_region s =
    if s =t= codes "full" || s =t= codes "square"
    then true
    else is_some_and
        (valid_fields (starts_with (codes "pct:") s) 0 4
          (unwrap_or (strip_prefix (codes "pct:") s) s))
        is_empty

-- `w,` or `w,h` behind the optional `!`.
pub valid_width : Bool → Text → Bool
valid_width has_bang s = is_some_and (consume_posint s) (λ r.
    is_some_and (strip_prefix (codes ",") r)
      (λ r'. if is_empty r' then not has_bang else is_some_and (consume_posint r') is_empty))

-- What follows `^`, `max` and `pct:`.
pub valid_pixels : Bool → Text → Bool
unfolding valid_width
valid_pixels has_bang s = elim (strip_prefix (codes ",") s) [
  | some r ↦ if has_bang then false else is_some_and (consume_posint r) is_empty
  | none ↦ valid_width has_bang s
]

unfoldable pub is_valid_size : Text → Bool
unfolding valid_pixels
is_valid_size t =
    let s = unwrap_or (strip_prefix (codes "^") t) t in
    if s =t= codes "max" then true else elim (strip_prefix (codes "pct:") s) [
      | some p ↦ is_some_and (consume_posfloat p) is_empty
      | none ↦ elim (strip_prefix (codes "!") s) [
        | some r ↦ valid_pixels true r
        | none ↦ valid_pixels false s
      ]
    ]

unfoldable pub is_valid_rotation : Text → Bool
is_valid_rotation t =
    let s = unwrap_or (strip_prefix (codes "!") t) t in is_some_and (consume_posfloat s) is_empty

abbrev qualities : List Text
qualities = codes "color" ∷ codes "gray" ∷ codes "bitonal" ∷ codes "default" ∷ []

abbrev formats : List Text
formats = codes "jpg" ∷ codes "tif" ∷ codes "png" ∷ codes "jp2" ∷ []

abbrev member : Text → List Text → Bool
member t [] = false
member t (u ∷ us) = u =t= t || member t us

-- The loop over the qualities: the first that is a prefix decides.
pub valid_qualform : List Text → Text → Bool
valid_qualform [] s = false
valid_qualform (q ∷ qs) s = elim (strip_prefix q s) [
  | some rest ↦ is_some_and (strip_prefix (codes ".") rest) (λ fmt. member fmt formats)
  | none ↦ valid_qualform qs s
]

unfoldable pub is_valid_qualform : Text → Bool
unfolding valid_qualform
is_valid_qualform s = valid_qualform qualities s
