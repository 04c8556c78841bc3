-- ===== src/Paths/Within.antt =====
-- The containment check: what it accepts is the root or lies below it.
use sipi.Common.{
  ℕ, [], ◌∷◌, ◌++◌, true, Option, none, some, Text, ◌≡◌, ◌↔◌, ◌⊎◌, inl, inr, starts_with, refl, ap,
  sym, ◌∙◌, arith, Bool-cases, Option-cases, subst,
}
use sipi.Paths.{is_within, validate_resolved_path, resolved, not_found, traversal}

-- The root, or a path below it.
abbrev pub Within : Text → Text → Type 0
Within root p = (p ≡ root) ⊎ ((rest : Text) × (p ≡ root ++ b'/' ∷ rest))

is_within-cons : (c : ℕ) (p root : Text) → is_within (c ∷ p) (c ∷ root) ≡ is_within p root
unfolding is_within
is_within-cons c p root = elim (Bool-cases (starts_with root p)) [
  | inl e ↦ ground (arith, e)
  | inr e ↦ ground (arith, e)
]

is_within-ne : (c d : ℕ) (p root : Text) → is_within (c ∷ p) (d ∷ root) ≡ true → c ≡ d
unfolding is_within
is_within-ne c d p root h = ground arith

Within-cons : (c : ℕ) (p root : Text) → Within root p → Within (c ∷ root) (c ∷ p)
Within-cons c p root (inl e) = inl (ap (◌∷◌ c) e)
Within-cons c p root (inr (rest, e)) = inr (rest, ap (◌∷◌ c) e)

Within-uncons : (c d : ℕ) (p root : Text) → Within (d ∷ root) (c ∷ p) → (c ≡ d) × Within root p
Within-uncons c d p root (inl e) = (cc, inl (cc))
Within-uncons c d p root (inr (rest, e)) = (cc, inr (rest, cc))

slash_there : (c : ℕ) (p : Text) → is_within (c ∷ p) [] ≡ true → Within [] (c ∷ p)
unfolding is_within
slash_there c p h = let e : c ≡ b'/' = ground arith in inr (p, ap (λ c. c ∷ p) e)

slash_back : (c : ℕ) (p : Text) → Within [] (c ∷ p) → is_within (c ∷ p) [] ≡ true
unfolding is_within
slash_back c p (inl e) = absurd (cc)
slash_back c p (inr (r, e)) = let f : c ≡ b'/' = cc in rw f (ground arith)

is_within_iff : (p root : Text) → (is_within p root ≡ true) ↔ Within root p
unfolding is_within
is_within_iff [] [] = ((λ h. inl refl), (λ w. refl))
is_within_iff (c ∷ p) [] = (slash_there c p, slash_back c p)
is_within_iff [] (d ∷ root) =
    ((λ h. absurd (cc)), (λ w. elim w [ inl e ↦ absurd (cc) | inr (r, e) ↦ absurd (cc) ]))
is_within_iff (c ∷ p) (d ∷ root) = (
  (λ h.
      let same = is_within-ne c d p root h in
      let below = (is_within_iff p root).0 (
        sym (is_within-cons c p root)
        ∙ subst (λ d. is_within (c ∷ p) (d ∷ root) ≡ true) (sym same) h) in
      subst (λ d. Within (d ∷ root) (c ∷ p)) same (Within-cons c p root below)),
  (λ w.
      let (same, below) = Within-uncons c d p root w in
      let h : is_within (c ∷ p) (c ∷ root) ≡ true =
        is_within-cons c p root ∙ (is_within_iff p root).1 below in
      subst (λ d. is_within (c ∷ p) (d ∷ root) ≡ true) same h),
)

-- What the check of a resolved path answers: `not_found` where there is no such file, the resolved
-- path exactly where it is the root or lies below it, and `traversal` otherwise. `/foo/barbaz` is
-- not below `/foo/bar`.
pub validate_resolved_path_lem :
    (canonicalize : Text → Option Text) (file_path root : Text)
    → ((canonicalize file_path ≡ none)
        × (validate_resolved_path canonicalize file_path root ≡ not_found))
      ⊎ ((p : Text) × (canonicalize file_path ≡ some p)
          × ((Within root p × (validate_resolved_path canonicalize file_path root ≡ resolved p))
              ⊎ ((Within root p → ⊥)
                  × (validate_resolved_path canonicalize file_path root ≡ traversal))))
unfolding validate_resolved_path
validate_resolved_path_lem canonicalize file_path root =
    elim (Option-cases (canonicalize file_path)) [
      | inl e ↦ inl (e, rw (validate_resolved_path, e) refl)
      | inr (p, e) ↦ inr (
        p,
        e,
        elim (Bool-cases (is_within p root)) [
          | inl w ↦ inl ((is_within_iff p root).0 w, rw (validate_resolved_path, e, w) refl)
          | inr w ↦
              inr
                ((λ x. cc (w, (is_within_iff p root).1 x)), rw (validate_resolved_path, e, w) refl)
        ],
      )
    ]
