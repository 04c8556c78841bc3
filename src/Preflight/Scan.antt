-- ===== src/Preflight/Scan.antt =====
-- The two loops over a probe window: where the loop of `insert` puts the entry, the loop of `get`
-- finds it.
use sipi.Common.{
  subst, ℕ, ◌<◌, List, [], ◌∷◌, Bool, true, false, Option, none, some, ◌≡◌, ◌≢◌, refl, sym, ◌⊎◌,
  inl, inr, if◌then◌else◌, ltb, leb, get_elem?, set, length, get_elem?-set_self, get_elem?-set_ne,
  Bool-cases, Option-cases, lt→ltb, ◌==◌, ==_iff,
}
use sipi.Preflight.{
  KeyBuf, Slot, Shard, live, find, Place, refresh, fill, reuse, place, matches, get_or_insert,
  older, victim,
}

-- An occupied slot of another key.
abbrev pub Passed : KeyBuf → Shard → ℕ → Type 0
Passed key sh i = (s : Slot) × (get_elem? sh i ≡ some (some s)) × (matches s key ≡ false)

-- All slots of the window before the first one at `j` are occupied by other keys.
abbrev pub Reaches : KeyBuf → Shard → ℕ → List ℕ → Type 0
Reaches key sh j [] = ⊥
Reaches key sh j (i ∷ is) = (i ≡ j) ⊎ (Passed key sh i × Reaches key sh j is)

abbrev pub index : Place → ℕ
index (refresh i) = i
index (fill i) = i
index (reuse i) = i

older-index :
    (oldest : Option (ℕ × ℕ)) (idx expiry j e : ℕ)
    → older oldest idx expiry ≡ some (j, e)
    → (j ≡ idx) ⊎ ((f : ℕ) × (oldest ≡ some (j, f)))
older-index none idx expiry j e h = inl (cc)
older-index (some (i, f)) idx expiry j e h = elim (Bool-cases (ltb expiry f)) [
  | inl b ↦ inl (cc (rw b at h))
  | inr b ↦
      let same : ◌≡◌ {A = Option (ℕ × ℕ)} (some (i, f)) (some (j, e)) = rw b at h in inr (f, cc)
]

free-index :
    (free : Option ℕ) (stale : Bool) (idx j : ℕ)
    → (if stale then get_or_insert free idx else free) ≡ some j
    → (j ≡ idx) ⊎ (free ≡ some j)
free-index none true idx j h = inl (cc)
free-index none false idx j h = inr h
free-index (some i) true idx j h = inr h
free-index (some i) false idx j h = inr h

victim-index :
    (free : Option ℕ) (oldest : Option (ℕ × ℕ)) (last : ℕ) (Q : ℕ → Type 0)
    → Q last
    → ((j : ℕ) → free ≡ some j → Q j)
    → ((j e : ℕ) → oldest ≡ some (j, e) → Q j)
    → Q (victim free oldest last)
victim-index none none last Q l f o = l
victim-index none (some (j, e)) last Q l f o = o j e refl
victim-index (some j) oldest last Q l f o = f j refl

-- `insert` writes at a place that the scan of the whole window reaches.
pub place-Reaches :
    (key : KeyBuf) (now : ℕ) (sh : Shard) (last : ℕ) (Q : ℕ → Type 0) (free : Option ℕ)
    (oldest : Option (ℕ × ℕ)) (is : List ℕ) (p : Place)
    → ((j : ℕ) → Reaches key sh j is → Q j)
    → Q last
    → ((j : ℕ) → free ≡ some j → Q j)
    → ((j e : ℕ) → oldest ≡ some (j, e) → Q j)
    → place key now sh last free oldest is ≡ some p
    → Q (index p)
unfolding place
place-Reaches key now sh last Q free oldest [] p r l f o h =
    let e : reuse (victim free oldest last) ≡ p = cc in
    subst (λ p. Q (index p)) e (victim-index free oldest last Q l f o)
place-Reaches key now sh last Q free oldest (i ∷ is) p r l f o h =
    elim (Option-cases (get_elem? sh i)) [
      | inl e ↦ absurd (cc (rw (e, place) at h))
      | inr (none, e) ↦
          let same : fill i ≡ p = cc (rw (place, e) at h) in
          subst (λ p. Q (index p)) same (r i (inl refl))
      | inr (some s, e) ↦ elim (Bool-cases (matches s key)) [
        | inl m ↦
            let same : refresh i ≡ p = cc (rw (place, e, m) at h) in
            subst (λ p. Q (index p)) same (r i (inl refl))
        | inr m ↦
            place-Reaches key now sh last Q
              (if leb s.expiry now then get_or_insert free i else free) (older oldest i s.expiry) is
              p (λ j x. r j (inr ((s, e, m), x))) l
              (λ j x. elim (free-index free (leb s.expiry now) i j x) [
                | inl d ↦ r j (inl (sym d))
                | inr d ↦ f j d
              ])
              (λ j x y. elim (older-index oldest i s.expiry j x y) [
                | inl d ↦ r j (inl (sym d))
                | inr (z, d) ↦ o j z d
              ])
              (rw (place, e, m) at h)
      ]
    ]

find-here :
    (key : KeyBuf) (now : ℕ) (sh : Shard) (slot : Slot) (i j : ℕ) (is : List ℕ)
    → j < length sh
    → matches slot key ≡ true
    → now < slot.expiry
    → i ≡ j
    → find key now (set sh j (some slot)) (i ∷ is) ≡ some (live slot.decision)
unfolding find
find-here key now sh slot i j is b m t e =
    rw (e, find, get_elem?-set_self sh j (some slot) b, m, lt→ltb _ _ t) refl

-- The loop of `get` comes to the entry that was put there.
pub find-Reaches :
    (key : KeyBuf) (now : ℕ) (sh : Shard) (slot : Slot) (j : ℕ) (is : List ℕ)
    → j < length sh
    → matches slot key ≡ true
    → now < slot.expiry
    → Reaches key sh j is
    → find key now (set sh j (some slot)) is ≡ some (live slot.decision)
unfolding find
find-Reaches key now sh slot j [] b m t r = absurd r
find-Reaches key now sh slot j (i ∷ is) b m t (inl e) =
    rw (e, find, get_elem?-set_self sh j (some slot) b, m, lt→ltb _ _ t) refl
find-Reaches key now sh slot j (i ∷ is) b m t (inr ((s, g, n), r)) = elim (Bool-cases (i == j)) [
  | inl e ↦ find-here key now sh slot i j is b m t ((==_iff i j).0 e)
  | inr e ↦
      let other : j ≢ i = λ d. cc (e, (==_iff i j).1 (sym d)) in
      rw (find, get_elem?-set_ne sh j i (some slot) other, g, n)
        (find-Reaches key now sh slot j is b m t r)
]
