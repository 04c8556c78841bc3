-- ===== src/Preflight/History.antt =====
-- What a lookup may return, after any sequence of calls.
use sipi.Common.{
  ℕ, ◌+◌, ◌<◌, List, [], ◌∷◌, Option, none, some, ◌≡◌, refl, ap, sym, ◌∙◌, arith, get_elem?, set,
  All, inl, inr, ◌⊎◌, subst, eq_iff, Bool-cases, Option-cases, ltb, ltb→lt, replicate,
}
use mathlib.Core.Option.{some-injective}
use sipi.Preflight.{
  KeyBuf, Slot, Shard, CachedDecision, PreflightCache, num_shards, per_shard, new, shard,
  base_index, window, Found, live, expired, absent, find, conclude, get, Place, refresh, fill,
  reuse, matches, slot_of, store, insert,
}
use sipi.Preflight.Shape.{
  WellFormed, All-get_elem?, All-set, All-replicate, new_cases, per_shard-pos,
  empty_table-WellFormed, conclude-WellFormed, store-WellFormed, insert-total,
}
use sipi.Preflight.Fresh.{insert-Reaches, store-shards, get_cases}
use sipi.Preflight.Scan.{index}

pub data Call : Type 0 where
  getting : KeyBuf → ℕ → Call
  inserting : KeyBuf → CachedDecision → ℕ → Call

abbrev pub apply : Call → PreflightCache → Option PreflightCache
apply (getting key now) c = elim (get c key now) [ none ↦ none | some (r, c') ↦ some c' ]
apply (inserting key decision now) c = insert c key decision now

-- The cache after the calls, the last of which stands first.
unfoldable pub after : PreflightCache → List Call → Option PreflightCache
after c [] = some c
after c (x ∷ xs) = elim (after c xs) [ none ↦ none | some c' ↦ apply x c' ]

-- A slot that one of the calls stored.
abbrev pub Stored : ℕ → List Call → Slot → Type 0
Stored ttl [] s = ⊥
Stored ttl (getting key now ∷ xs) s = Stored ttl xs s
Stored ttl (inserting key decision now ∷ xs) s =
    (s ≡ slot_of ttl key decision now) ⊎ Stored ttl xs s

abbrev SlotStored : ℕ → List Call → Option Slot → Type 0
SlotStored ttl xs none = Unit
SlotStored ttl xs (some s) = Stored ttl xs s

abbrev ShardStored : ℕ → List Call → Shard → Type 0
ShardStored ttl xs sh = All (SlotStored ttl xs) sh

-- Every slot that is filled was stored by one of the calls.
record IsHistory (ttl : ℕ) (xs : List Call) (c : PreflightCache) : Type 0 where
  pub shape : WellFormed c
  pub ttl_kept : c.ttl ≡ ttl
  pub stored : All (ShardStored ttl xs) c.shards

module _ {ℓ κ μ} {A : Type ℓ} {P : A → Type κ} {Q : A → Type μ} where
  All-weaken : (xs : List A) → ((a : A) → P a → Q a) → All P xs → All Q xs
  All-weaken [] f h = tt
  All-weaken (x ∷ xs) f h = (f x h.0, All-weaken xs f h.1)

-- A live entry was stored by an insertion of the same key, and has not expired.
find-live :
    (ttl : ℕ) (xs : List Call) (key : KeyBuf) (now : ℕ) (sh : Shard) (d : CachedDecision)
    (is : List ℕ)
    → ShardStored ttl xs sh
    → find key now sh is ≡ some (live d)
    → (s : Slot) × Stored ttl xs s × (s.key ≡ key.bytes) × (now < s.expiry) × (s.decision ≡ d)
unfolding find
find-live ttl xs key now sh d [] a h = absurd (cc)
find-live ttl xs key now sh d (i ∷ is) a h = elim (Option-cases (get_elem? sh i)) [
  | inl e ↦ absurd (cc (rw (find, e) at h))
  | inr (none, e) ↦ find-live ttl xs key now sh d is a (rw (find, e) at h)
  | inr (some s, e) ↦ elim (Bool-cases (matches s key)) [
    | inr m ↦ find-live ttl xs key now sh d is a (rw (find, e, m) at h)
    | inl m ↦ elim (Bool-cases (ltb now s.expiry)) [
      | inl t ↦
          let same : ◌≡◌ {A = Option Found} (some (live s.decision)) (some (live d)) =
            rw (find, e, m, t) at h in
          (
            s,
            All-get_elem? (SlotStored ttl xs) sh i (some s) a e,
            (eq_iff s.key key.bytes).0 (ground (arith, m)),
            ltb→lt _ _ t,
            cc,
          )
      | inr t ↦ absurd (cc (rw (find, e, m, t) at h))
    ]
  ]
]

conclude-Stored :
    (ttl : ℕ) (xs : List Call) (c : PreflightCache) (s : ℕ) (sh : Shard) (f : Found)
    → All (ShardStored ttl xs) c.shards
    → ShardStored ttl xs sh
    → All (ShardStored ttl xs) (conclude c s sh f).1.shards
unfolding conclude
conclude-Stored ttl xs c s sh (live d) a b = a
conclude-Stored ttl xs c s sh absent a b = a
conclude-Stored ttl xs c s sh (expired i) a b =
    All-set (ShardStored ttl xs) c.shards s (set sh i none) a
      (All-set (SlotStored ttl xs) sh i none b tt)

conclude-ttl :
    (c : PreflightCache) (s : ℕ) (sh : Shard) (f : Found) → (conclude c s sh f).1.ttl ≡ c.ttl
unfolding conclude
conclude-ttl c s sh (live d) = refl
conclude-ttl c s sh absent = refl
conclude-ttl c s sh (expired i) = refl

store-ttl :
    (c : PreflightCache) (s : ℕ) (sh : Shard) (slot : Slot) (p : Place)
    → (store c s sh slot p).ttl ≡ c.ttl
unfolding store
store-ttl c s sh slot (refresh i) = refl
store-ttl c s sh slot (fill i) = refl
store-ttl c s sh slot (reuse i) = refl

store-Stored :
    (ttl : ℕ) (xs : List Call) (c : PreflightCache) (s : ℕ) (sh : Shard) (slot : Slot) (p : Place)
    → All (ShardStored ttl xs) c.shards
    → ShardStored ttl xs sh
    → Stored ttl xs slot
    → All (ShardStored ttl xs) (store c s sh slot p).shards
store-Stored ttl xs c s sh slot p a b x =
    subst (All (ShardStored ttl xs)) (sym (store-shards c s sh slot p).0) (
      All-set (ShardStored ttl xs) c.shards s (set sh (index p) (some slot)) a
        (All-set (SlotStored ttl xs) sh (index p) (some slot) b x))

-- A call keeps what the earlier ones stored.
inserting-Stored :
    (ttl : ℕ) (xs : List Call) (key : KeyBuf) (decision : CachedDecision) (now : ℕ) (sh : Shard)
    → ShardStored ttl xs sh
    → ShardStored ttl (inserting key decision now ∷ xs) sh
inserting-Stored ttl xs key decision now sh a = All-weaken sh keep a
  where
    keep :
        (o : Option Slot) → SlotStored ttl xs o → SlotStored ttl (inserting key decision now ∷ xs) o
    keep none x = tt
    keep (some s) x = inr x

getting-IsHistory :
    (ttl : ℕ) (xs : List Call) (c c' : PreflightCache) (key : KeyBuf) (now : ℕ)
    → IsHistory ttl xs c
    → apply (getting key now) c ≡ some c'
    → IsHistory ttl (getting key now ∷ xs) c'
getting-IsHistory ttl xs c c' key now i h =
    let (sh, f, e, g, r) = get_cases c key now i.shape in
    let same : ◌≡◌ {A = Option PreflightCache} (some (conclude c (shard key) sh f).1) (some c') =
      rw (apply, r) at h in
    subst (IsHistory ttl (getting key now ∷ xs)) (some-injective _ _ same) (record {
      shape = conclude-WellFormed c (shard key) sh f i.shape e;
      ttl_kept = conclude-ttl c (shard key) sh f ∙ i.ttl_kept;
      stored =
          conclude-Stored ttl xs c (shard key) sh f i.stored
            (All-get_elem? (ShardStored ttl xs) c.shards (shard key) sh i.stored e);
    })

inserting-IsHistory :
    (ttl : ℕ) (xs : List Call) (c c' : PreflightCache) (key : KeyBuf) (decision : CachedDecision)
    (now : ℕ)
    → IsHistory ttl xs c
    → insert c key decision now ≡ some c'
    → IsHistory ttl (inserting key decision now ∷ xs) c'
inserting-IsHistory ttl xs c c' key decision now i h =
    let (sh, p, e, same, size, inside, reached) = insert-Reaches c c' key decision now i.shape h in
    let slot = slot_of c.ttl key decision now in
    let ys : List Call = inserting key decision now ∷ xs in
    let keep = inserting-Stored ttl xs key decision now in
    subst (IsHistory ttl ys) (sym same) (record {
      shape = store-WellFormed c (shard key) sh slot p i.shape e;
      ttl_kept = store-ttl c (shard key) sh slot p ∙ i.ttl_kept;
      stored =
          store-Stored ttl ys c (shard key) sh slot p (All-weaken c.shards keep i.stored)
            (keep sh (All-get_elem? (ShardStored ttl xs) c.shards (shard key) sh i.stored e))
            (inl (ap (λ t. slot_of t key decision now) i.ttl_kept));
    })

apply-IsHistory :
    (ttl : ℕ) (xs : List Call) (c c' : PreflightCache) (x : Call)
    → IsHistory ttl xs c
    → apply x c ≡ some c'
    → IsHistory ttl (x ∷ xs) c'
apply-IsHistory ttl xs c c' (getting key now) i h = getting-IsHistory ttl xs c c' key now i h
apply-IsHistory ttl xs c c' (inserting key decision now) i h =
    inserting-IsHistory ttl xs c c' key decision now i h

new-IsHistory : (slots ttl : ℕ) (c : PreflightCache) → new slots ttl ≡ some c → IsHistory ttl [] c
new-IsHistory slots ttl c h =
    let n = per_shard slots in
    let empty : Shard = replicate n none in
    subst (IsHistory ttl []) (sym (new_cases slots ttl c h).1) (record {
      shape = empty_table-WellFormed n ttl (per_shard-pos slots);
      ttl_kept = refl;
      stored =
          All-replicate (ShardStored ttl []) num_shards empty
            (All-replicate (SlotStored ttl []) n none tt);
    })

apply-total :
    (c : PreflightCache) (x : Call) → WellFormed c → (c' : PreflightCache) × (apply x c ≡ some c')
apply-total c (getting key now) w =
    let (sh, f, e, g, r) = get_cases c key now w in
    ((conclude c (shard key) sh f).1, rw (apply, r) refl)
apply-total c (inserting key decision now) w = insert-total c key decision now w

after-IsHistory :
    (slots ttl : ℕ) (c : PreflightCache) (xs : List Call)
    → new slots ttl ≡ some c
    → (c' : PreflightCache) × (after c xs ≡ some c') × IsHistory ttl xs c'
unfolding after
after-IsHistory slots ttl c [] n = (c, refl, new-IsHistory slots ttl c n)
after-IsHistory slots ttl c (x ∷ xs) n =
    let (c₁, e, i) = after-IsHistory slots ttl c xs n in
    let (c', f) = apply-total c₁ x i.shape in
    (c', rw (after, e) f, apply-IsHistory ttl xs c₁ c' x i f)

pub after-total :
    (slots ttl : ℕ) (c : PreflightCache) (xs : List Call)
    → new slots ttl ≡ some c
    → (c' : PreflightCache) × (after c xs ≡ some c')
after-total slots ttl c xs n = let (c', e, i) = after-IsHistory slots ttl c xs n in (c', e)

conclude-live :
    (c : PreflightCache) (s : ℕ) (sh : Shard) (f : Found) (d : CachedDecision)
    → (conclude c s sh f).0 ≡ some d
    → f ≡ live d
unfolding conclude
conclude-live c s sh (live x) d h = ap live (some-injective _ _ h)
conclude-live c s sh absent d h = absurd (cc)
conclude-live c s sh (expired i) d h = absurd (cc)

-- The decisions that a cache may return for a key at a time: those of the insertions of that key whose
-- time to live has not passed.
abbrev pub Served : ℕ → List Call → KeyBuf → ℕ → CachedDecision → Type 0
Served ttl [] key now d = ⊥
Served ttl (getting _ _ ∷ xs) key now d = Served ttl xs key now d
Served ttl (inserting k decision t ∷ xs) key now d =
    ((k.bytes ≡ key.bytes) × (decision ≡ d) × (now < t + ttl)) ⊎ Served ttl xs key now d

Stored-Served :
    (ttl : ℕ) (xs : List Call) (key : KeyBuf) (now : ℕ) (s : Slot)
    → s.key ≡ key.bytes
    → now < s.expiry
    → Stored ttl xs s
    → Served ttl xs key now s.decision
Stored-Served ttl [] key now s k t x = absurd x
Stored-Served ttl (getting _ _ ∷ xs) key now s k t x = Stored-Served ttl xs key now s k t x
Stored-Served ttl (inserting h decision u ∷ xs) key now s k t (inl e) = inl (
  sym (ap (λ s. s.key) e) ∙ k,
  sym (ap (λ s. s.decision) e),
  subst (λ n. now < n) (ap (λ s. s.expiry) e) t,
)
Stored-Served ttl (inserting h decision u ∷ xs) key now s k t (inr x) =
    inr (Stored-Served ttl xs key now s k t x)

-- Whatever calls a new cache has answered, in any order and at any times: neither those calls nor
-- the next lookup panics, and a decision that the lookup returns was stored by an insertion of
-- the very same key bytes, less than `ttl` before.
pub get-Served :
    (slots ttl : ℕ) (c : PreflightCache) (xs : List Call) (key : KeyBuf) (now : ℕ)
    → new slots ttl ≡ some c
    → (c' : PreflightCache) × (o : Option CachedDecision) × (c'' : PreflightCache) × (after c xs
        ≡ some c')
      × (get c' key now ≡ some (o, c''))
      × ((d : CachedDecision) → o ≡ some d → Served ttl xs key now d)
get-Served slots ttl c xs key now n =
    let (c', e, i) = after-IsHistory slots ttl c xs n in
    let (sh, f, g, h, r) = get_cases c' key now i.shape in
    (
      c',
      (conclude c' (shard key) sh f).0,
      (conclude c' (shard key) sh f).1,
      e,
      r,
      (λ d x.
          let found = conclude-live c' (shard key) sh f d x in
          let (s, stored, same, alive, decided) =
            find-live ttl xs key now sh d (window c'.slots_per_shard (base_index c' key))
              (All-get_elem? (ShardStored ttl xs) c'.shards (shard key) sh i.stored g)
              (h ∙ ap some found) in
          subst (Served ttl xs key now) decided (Stored-Served ttl xs key now s same alive stored)),
    )
