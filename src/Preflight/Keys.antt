-- ===== src/Preflight/Keys.antt =====
-- The bytes of a key tell its parts Apart.
use sipi.Common.{
  [], ◌∷◌, ◌++◌, Option, none, some, ◌≡◌, refl, ap, sym, ◌∙◌, Text, Lacks, split_once,
  split_once-append, append_assoc,
}
use mathlib.Core.Option.{some-injective}
use sipi.Preflight.{push_optional, key_bytes}

abbrev marked : Option Text → Text
marked (some v) = 1 ∷ v
marked none = 0 ∷ []

push_optional_lem : (bytes : Text) (v : Option Text) → push_optional bytes v ≡ bytes ++ marked v
unfolding push_optional
push_optional_lem bytes (some v) = refl
push_optional_lem bytes none = refl

key_bytes_lem :
    (prefix identifier : Text) (cookie authorization : Option Text)
    → key_bytes prefix identifier cookie authorization
      ≡ prefix ++ 0 ∷ (identifier ++ 0 ∷ (marked cookie ++ 0 ∷ marked authorization))
unfolding key_bytes
key_bytes_lem prefix identifier cookie authorization = simp (push_optional_lem, append_assoc) refl

-- The first NUL ends a text that has none.
cut : (s t u v : Text) → Lacks 0 s → Lacks 0 t → s ++ 0 ∷ u ≡ t ++ 0 ∷ v → (s ≡ t) × (u ≡ v)
cut s t u v a b h =
    let e : some (s, u) ≡ some (t, v) =
      sym (split_once-append 0 s u a) ∙ ap (split_once 0) h ∙ split_once-append 0 t v b in
    let f = some-injective _ _ e in (ap (λ x. x.0) f, ap (λ x. x.1) f)

-- What a header's text is: it holds no NUL.
abbrev pub IsHeader : Option Text → Type 0
IsHeader none = Unit
IsHeader (some v) = Lacks 0 v

marked-injective : (a b : Option Text) → marked a ≡ marked b → a ≡ b
marked-injective none none h = refl
marked-injective none (some v) h = absurd (cc)
marked-injective (some v) none h = absurd (cc)
marked-injective (some v) (some w) h = cc

-- Requests share a key only where the prefix, the identifier and both headers agree, and a header
-- that is absent differs from an empty one; the prefixes, the identifiers and the cookies hold no NUL.
pub key_bytes-injective :
    (p q i j : Text) (c d a b : Option Text)
    → Lacks 0 p
    → Lacks 0 q
    → Lacks 0 i
    → Lacks 0 j
    → IsHeader c
    → IsHeader d
    → key_bytes p i c a ≡ key_bytes q j d b
    → (p ≡ q) × (i ≡ j) × (c ≡ d) × (a ≡ b)
key_bytes-injective p q i j c d a b hp hq hi hj hc hd h =
    let (e, rest) =
      cut p q (i ++ 0 ∷ (marked c ++ 0 ∷ marked a)) (j ++ 0 ∷ (marked d ++ 0 ∷ marked b)) hp hq
        (sym (key_bytes_lem p i c a) ∙ h ∙ key_bytes_lem q j d b) in
    let (f, tail) = cut i j (marked c ++ 0 ∷ marked a) (marked d ++ 0 ∷ marked b) hi hj rest in
    let (g, k) = headers c d hc hd tail in (e, f, g, marked-injective a b k)
  where
    headers :
        (c d : Option Text)
        → IsHeader c
        → IsHeader d
        → marked c ++ 0 ∷ marked a ≡ marked d ++ 0 ∷ marked b
        → (c ≡ d) × (marked a ≡ marked b)
    headers none none x y h = (refl, cc)
    headers none (some v) x y h = absurd (cc)
    headers (some v) none x y h = absurd (cc)
    headers (some v) (some w) x y h =
        let (e, f) = cut v w (marked a) (marked b) x y (cc) in (ap some e, f)

-- A cookie that holds a NUL is confused with an authorization.
pub key_bytes-confused :
    key_bytes [] [] (some (97 ∷ 0 ∷ 1 ∷ 98 ∷ [])) none
    ≡ key_bytes [] [] (some (97 ∷ [])) (some (98 ∷ 0 ∷ 0 ∷ []))
unfolding key_bytes push_optional
key_bytes-confused = refl
