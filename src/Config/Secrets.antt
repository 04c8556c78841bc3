-- ===== src/Config/Secrets.antt =====
-- The debug output does not leak the secrets.
use sipi.Common.{Option, Text, Bool, is_some, ◌≡◌, ap, if◌then◌else◌, codes, refl}
use sipi.Config.{ServerOverrides, redact, fmt}

redact-is_some : (s t : Option Text) → is_some s ≡ is_some t → redact s ≡ redact t
unfolding redact
redact-is_some s t h = ap (λ (b : Bool). if b then codes "Some([redacted])" else codes "None") h

-- Overrides that differ in the JWT key and the administrator's password only, and set the same of these
-- two, have the same debug output.
pub fmt-redact :
    {R : Type 0} (o : ServerOverrides R) (k l p q : Option Text)
    → is_some k ≡ is_some l
    → is_some p ≡ is_some q
    → fmt (record o { jwtkey = k; adminpasswd = p })
      ≡ fmt (record o { jwtkey = l; adminpasswd = q })
unfolding fmt
fmt-redact o k l p q h g = rw (redact-is_some k l h, redact-is_some p q g) refl
