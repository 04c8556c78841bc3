-- ===== src/Paths/Traversal.antt =====
-- The string check: a text that passes it has no component `..`.
use sipi.Common.{
  ℕ, List, [], ◌∷◌, ◌++◌, true, false, Text, codes, ◌≡◌, ◌≢◌, ◌⊎◌, inl, inr, ends_with, contains,
  split, join, join-split, All, refl, subst, arith,
}
use sipi.Paths.{contains_traversal}

-- What the check finds behind a slash.
abbrev Behind : Text → Type 0
Behind s = (ends_with (codes "/..") s ≡ true) ⊎ (contains (codes "/../") s ≡ true)

Behind-front : (c : ℕ) (s : Text) → Behind s → Behind (c ∷ s)
Behind-front c s h = ground arith

Behind-append : (t s : Text) → Behind s → Behind (t ++ s)
Behind-append [] s h = h
Behind-append (c ∷ t) s h = Behind-front c (t ++ s) (Behind-append t s h)

abbrev HasDots : List Text → Type 0
HasDots [] = ⊥
HasDots (t ∷ ts) = (t ≡ codes "..") ⊎ HasDots ts

-- A component `..` behind a slash.
Behind_lem : (t : Text) (ts : List Text) → HasDots (t ∷ ts) → Behind (b'/' ∷ join b'/' (t ∷ ts))
Behind_lem t [] (inl e) = rw e (inl refl)
Behind_lem t [] (inr h) = absurd h
Behind_lem t (u ∷ us) (inl e) = rw e (inr refl)
Behind_lem t (u ∷ us) (inr h) =
    Behind-front b'/' (join b'/' (t ∷ u ∷ us))
      (Behind-append t (b'/' ∷ join b'/' (u ∷ us)) (Behind_lem u us h))

Behind-traversal : (s : Text) → Behind s → contains_traversal s ≡ true
unfolding contains_traversal
Behind-traversal s (inl h) = ground arith
Behind-traversal s (inr h) = ground arith

joined-traversal :
    (t : Text) (ts : List Text) → HasDots (t ∷ ts) → contains_traversal (join b'/' (t ∷ ts)) ≡ true
unfolding contains_traversal
joined-traversal t [] (inl e) = rw e refl
joined-traversal t [] (inr h) = absurd h
joined-traversal t (u ∷ us) (inl e) = rw e refl
joined-traversal t (u ∷ us) (inr h) =
    Behind-traversal (join b'/' (t ∷ u ∷ us))
      (Behind-append t (b'/' ∷ join b'/' (u ∷ us)) (Behind_lem u us h))

dots_free :
    (s : Text) (ts : List Text) → join b'/' ts ≡ s → contains_traversal s ≡ false → (HasDots ts → ⊥)
dots_free s [] e h d = d
dots_free s (t ∷ ts) e h d =
    cc (subst (λ s. contains_traversal s ≡ true) e (joined-traversal t ts d), h)

All-dots : (ts : List Text) → (HasDots ts → ⊥) → All (λ t. t ≢ codes "..") ts
All-dots [] h = tt
All-dots (t ∷ ts) h = ((λ e. h (inl e)), All-dots ts (λ d. h (inr d)))

-- A text that passes the check has no component `..` between its slashes.
pub contains_traversal-All :
    (decoded : Text)
    → contains_traversal decoded ≡ false
    → All (λ t. t ≢ codes "..") (split b'/' decoded)
contains_traversal-All decoded h =
    All-dots (split b'/' decoded)
      (dots_free decoded (split b'/' decoded) (join-split b'/' decoded) h)
