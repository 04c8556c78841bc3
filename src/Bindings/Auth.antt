-- ===== src/Bindings/Auth.antt =====
-- Which requests authenticate with a user and a password.
use sipi.Common.{
  ℕ, List, [], ◌∷◌, ◌++◌, false, Option, some, Text, codes, is_empty, eq_iff, split_once,
  split_once-append, split_once_sound, Lacks, to_ascii_lowercase, trim, unwrap_or, ◌≡◌, ◌↔◌, refl,
  arith, Option-cases, inl, inr,
}
use sipi.Bindings.{RequestData}
use sipi.Bindings.Requests.{header_of, require_auth}

-- What the script gets for a user and a password.
abbrev pub basic_of : Text × Text → List (Text × Text)
basic_of (user, password) =
    (codes "status", codes "BASIC") ∷ (codes "username", user) ∷ (codes "password", password) ∷ []

-- The header is of the scheme Basic, in any case, and what follows the first blank decodes to the user, a
-- colon and the password.
abbrev pub Credentials : (Text → Option Text) → Text → Text × Text → Type 0
Credentials decode auth (user, password) =
    (scheme : Text) × (rest : Text) × (auth ≡ scheme ++ b' ' ∷ rest)
    × (to_ascii_lowercase scheme ≡ codes "basic")
    × (decode (trim rest) ≡ some (user ++ b':' ∷ password))
    × Lacks b':' user

lower-Lacks : (s t : Text) → to_ascii_lowercase s ≡ t → Lacks b' ' t → Lacks b' ' s
lower-Lacks [] t h l = tt
lower-Lacks (c ∷ s) [] h l = absurd (cc)
lower-Lacks (c ∷ s) (d ∷ t) h l = ground (arith, lower-Lacks s t)

not_empty : (s t : Text) (c : ℕ) → is_empty (s ++ c ∷ t) ≡ false
not_empty [] t c = refl
not_empty (d ∷ s) t c = refl

basic_word : Lacks b' ' (codes "basic")
basic_word = ground arith

module _ (decode : Text → Option Text) (req : RequestData) (user password : Text) where
  require_auth-Credentials :
      (auth : Text)
      → header_of (codes "authorization") req.headers ≡ some auth
      → Credentials decode auth (user, password)
      → require_auth decode req ≡ basic_of (user, password)
  unfolding require_auth
  require_auth-Credentials auth h (scheme, rest, e, b, d, l) = ground (
    arith,
    not_empty scheme rest b' ',
    split_once-append b' ' scheme rest (lower-Lacks scheme (codes "basic") b basic_word),
    split_once-append b':' user password l,
    eq_iff (to_ascii_lowercase scheme) (codes "basic"),
  )

  Credentials-require_auth :
      (auth : Text)
      → header_of (codes "authorization") req.headers ≡ some auth
      → require_auth decode req ≡ basic_of (user, password)
      → Credentials decode auth (user, password)
  unfolding require_auth
  Credentials-require_auth auth h r = elim (Option-cases (split_once b' ' auth)) [
    | inl e ↦ absurd (ground arith)
    | inr ((scheme, rest), e) ↦
        elim (Option-cases (split_once b':' (unwrap_or (decode (trim rest)) []))) [
          | inl n ↦ absurd (ground (arith, eq_iff (to_ascii_lowercase scheme) (codes "basic")))
          | inr ((u, p), n) ↦ (
            scheme,
            rest,
            (split_once_sound b' ' auth scheme rest e).0,
            ground (arith, eq_iff (to_ascii_lowercase scheme) (codes "basic")),
            ground (
              arith,
              eq_iff (to_ascii_lowercase scheme) (codes "basic"),
              split_once_sound b':' (unwrap_or (decode (trim rest)) []) u p n,
              not_empty user password b':',
            ),
            ground (
              arith,
              eq_iff (to_ascii_lowercase scheme) (codes "basic"),
              split_once_sound b':' (unwrap_or (decode (trim rest)) []) u p n,
            ),
          )
        ]
  ]

  -- A request authenticates with a user and a password exactly if its first authorization header is of the
  -- scheme Basic, in any case, and what follows the first blank decodes, once trimmed, to the user, which has
  -- no colon, a colon and the password.
  pub require_auth-basic_iff : (require_auth decode req ≡ basic_of (user, password)) ↔ (
      (auth : Text) × (header_of (codes "authorization") req.headers ≡ some auth)
      × Credentials decode auth (user, password))
  unfolding require_auth
  require_auth-basic_iff = (
    (λ r. elim (Option-cases (header_of (codes "authorization") req.headers)) [
      | inl e ↦ absurd (ground arith)
      | inr (auth, e) ↦ (auth, e, Credentials-require_auth auth e r)
    ]),
    (λ (auth, e, c). require_auth-Credentials auth e c),
  )
