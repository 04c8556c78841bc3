-- ===== src/Uuid/Rounds.antt =====
-- A UUID is read back from its base 62 form.
use sipi.Common.{
  ◌<◌, [], ◌∷◌, false, some, Text, ◌≡◌, refl, Lacks, ◌==◌, u64_mod, split_once-append, Bool-cases,
  inl, inr, arith,
}
use sipi.Uuid.{SoleUuid, encode, base62, has_dash, from_base62}
use sipi.Uuid.Digits.{encode-Lacks, decode-encode}

has_dash-Lacks : (s : Text) → Lacks b'-' s → has_dash s ≡ false
has_dash-Lacks [] h = refl
has_dash-Lacks (c ∷ s) h = elim (Bool-cases (c == b'-')) [
  | inl e ↦ absurd (h.0 (ground (arith, e)))
  | inr e ↦ rw e (has_dash-Lacks s h.1)
]

-- A UUID of two halves below 2^64 is read back from its base 62 form.
pub from_base62-base62 :
    (u : SoleUuid) → u.ab < u64_mod → u.cd < u64_mod → from_base62 (base62 u) ≡ some u
unfolding from_base62 base62
from_base62-base62 u a b =
    rw
      (
        from_base62,
        base62,
        split_once-append b'-' (encode u.ab) (encode u.cd) (encode-Lacks u.ab),
        has_dash-Lacks (encode u.cd) (encode-Lacks u.cd),
        decode-encode u.ab a,
        decode-encode u.cd b,
      )
      refl
