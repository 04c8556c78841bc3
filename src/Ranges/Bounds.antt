-- ===== src/Ranges/Bounds.antt =====
-- A range lies in the file.
use sipi.Common.{
  ℕ, ◌-◌, ◌≤◌, ◌<◌, some, Text, codes, ◌≡◌, subst, arith, inl, inr, leb, ltb, min, Bool-cases,
  Option-cases, strip_prefix, split_once, unwrap_or,
}
use mathlib.Core.Option.{some-injective}
use sipi.Replies.{trim_start, trim_end}
use sipi.Ranges.{clamp_range, parse_byte_range, leading_u64}

abbrev pub InFile : ℕ → ℕ × ℕ → Type 0
InFile fsize (start, e) = (start ≤ e) × (e < fsize)

clamp_range-InFile :
    (start end_ fsize : ℕ) (r : ℕ × ℕ) → clamp_range start end_ fsize ≡ some r → InFile fsize r
unfolding clamp_range
clamp_range-InFile start end_ fsize r h = elim (Bool-cases (leb fsize start)) [
  | inl e ↦ absurd (cc (rw (clamp_range, e) at h))
  | inr e ↦ elim (Bool-cases (ltb (min end_ (fsize - 1)) start)) [
    | inl f ↦ absurd (cc (rw (clamp_range, e, f) at h))
    | inr f ↦
        let range : ℕ × ℕ = (start, min end_ (fsize - 1)) in
        let same : range ≡ r = some-injective _ _ (rw (clamp_range, e, f) at h) in
        subst (InFile fsize) same (ground (arith, f, e), ground (arith, e))
  ]
]

-- A range that is read off a header begins no later than it ends, and ends in the file.
pub parse_byte_range-InFile :
    (raw : Text) (fsize : ℕ) (r : ℕ × ℕ) → parse_byte_range raw fsize ≡ some r → InFile fsize r
unfolding parse_byte_range
parse_byte_range-InFile raw fsize r h =
    elim (Option-cases (strip_prefix (codes "bytes=") (trim_end (trim_start raw)))) [
      | inl e ↦ absurd (cc (rw (parse_byte_range, e) at h))
      | inr (body, e) ↦ elim (Option-cases (split_once 45 (trim_start body))) [
        | inl f ↦ absurd (cc (rw (parse_byte_range, e, f) at h))
        | inr ((s, t), f) ↦ elim (Option-cases (leading_u64 (trim_start s))) [
          | inl g ↦ absurd (cc (rw (parse_byte_range, e, f, g) at h))
          | inr (start, g) ↦
              clamp_range-InFile start (unwrap_or (leading_u64 (trim_start t)) (fsize - 1)) fsize r
                (rw (parse_byte_range, e, f, g) at h)
        ]
      ]
    ]
