-- ===== src/Preflight/Shape.antt =====
-- The shape of the table, which `new` sets up and every call keeps: no index is out of bounds.
use sipi.Common.{
  ℕ, zero, suc, ◌%◌, ◌<◌, ◌≤◌, List, [], ◌∷◌, Option, none, some, ◌≡◌, refl, sym, ◌∙◌, ◌⊎◌, inl,
  inr, arith, if◌then◌else◌, ltb, leb, get_elem?, set, All, length, replicate, ◌==◌, length-set,
  length-replicate, Bool-cases, subst,
}
use mathlib.Core.Option.{some-injective}
use sipi.Preflight.{
  KeyBuf, Slot, Shard, CachedDecision, PreflightCache, num_shards, per_shard, empty_table, new,
  shard, base_index, window, Found, live, expired, absent, find, conclude, get, Place, refresh,
  fill, reuse, place, matches, get_or_insert, older, slot_of, store, insert,
}

abbrev pub HasSize : ℕ → Shard → Type 0
HasSize n sh = length sh ≡ n

pub record WellFormed (c : PreflightCache) : Type 0 where
  pub count : length c.shards ≡ num_shards
  pub some_slots : 1 ≤ c.slots_per_shard
  pub sizes : All (HasSize c.slots_per_shard) c.shards

module _ {ℓ κ} {A : Type ℓ} (P : A → Type κ) where
  pub All-get_elem? : (xs : List A) (i : ℕ) (a : A) → All P xs → get_elem? xs i ≡ some a → P a
  All-get_elem? [] i a h e = absurd (cc)
  All-get_elem? (x ∷ xs) zero a h e = let same : x ≡ a = cc in subst P same h.0
  All-get_elem? (x ∷ xs) (suc i) a h e = All-get_elem? xs i a h.1 e

  pub All-set : (xs : List A) (i : ℕ) (a : A) → All P xs → P a → All P (set xs i a)
  All-set [] i a h p = tt
  All-set (x ∷ xs) zero a h p = (p, h.1)
  All-set (x ∷ xs) (suc i) a h p = (h.0, All-set xs i a h.1 p)

  pub All-replicate : (n : ℕ) (a : A) → P a → All P (replicate n a)
  All-replicate zero a p = tt
  All-replicate (suc n) a p = (p, All-replicate n a p)

pub get_elem?-some {ℓ} :
    {A : Type ℓ} (xs : List A) (i : ℕ) → i < length xs → (a : A) × (get_elem? xs i ≡ some a)
get_elem?-some [] i h = absurd (omega arith)
get_elem?-some (x ∷ xs) zero h = (x, refl)
get_elem?-some (x ∷ xs) (suc i) h = get_elem?-some xs i (omega arith)

slot-cases :
    (sh : Shard) (i : ℕ)
    → i < length sh
    → (get_elem? sh i ≡ some none) ⊎ ((s : Slot) × (get_elem? sh i ≡ some (some s)))
slot-cases sh i h = let (o, e) = get_elem?-some sh i h in of_slot o e
  where
    of_slot :
        (o : Option Slot)
        → get_elem? sh i ≡ some o
        → (get_elem? sh i ≡ some none) ⊎ ((s : Slot) × (get_elem? sh i ≡ some (some s)))
    of_slot none e = inl e
    of_slot (some s) e = inr (s, e)

pub window-All : (n base : ℕ) → 1 ≤ n → All (λ i. i < n) (window n base)
window-All n base h = (omega arith, (omega arith, (omega arith, (omega arith, tt))))

pub find-total :
    (key : KeyBuf) (now : ℕ) (sh : Shard) (is : List ℕ)
    → All (λ i. i < length sh) is
    → (f : Found) × (find key now sh is ≡ some f)
unfolding find
find-total key now sh [] h = (absent, refl)
find-total key now sh (i ∷ is) h = elim (slot-cases sh i h.0) [
  | inl e ↦ rw (find, e) (find-total key now sh is h.1)
  | inr (s, e) ↦ elim (Bool-cases (matches s key)) [
    | inl m ↦ elim (Bool-cases (ltb now s.expiry)) [
      | inl t ↦ (live s.decision, rw (find, e, m, t) refl)
      | inr t ↦ (expired i, rw (find, e, m, t) refl)
    ]
    | inr m ↦ rw (find, e, m) (find-total key now sh is h.1)
  ]
]

pub place-total :
    (key : KeyBuf) (now : ℕ) (sh : Shard) (last : ℕ) (is : List ℕ) (free : Option ℕ)
    (oldest : Option (ℕ × ℕ))
    → All (λ i. i < length sh) is
    → (p : Place) × (place key now sh last free oldest is ≡ some p)
unfolding place
place-total key now sh last [] free oldest h = (_, refl)
place-total key now sh last (i ∷ is) free oldest h = elim (slot-cases sh i h.0) [
  | inl e ↦ (fill i, rw (place, e) refl)
  | inr (s, e) ↦ elim (Bool-cases (matches s key)) [
    | inl m ↦ (refresh i, rw (place, e, m) refl)
    | inr m ↦
        rw (place, e, m)
          (place-total key now sh last is (if leb s.expiry now then get_or_insert free i else free)
            (older oldest i s.expiry) h.1)
  ]
]

-- The shard of a key, and that its window lies within it.
pub shard_of :
    (c : PreflightCache) (key : KeyBuf)
    → WellFormed c
    → (sh : Shard) × (get_elem? c.shards (shard key) ≡ some sh)
      × (length sh ≡ c.slots_per_shard)
      × All (λ i. i < length sh) (window c.slots_per_shard (base_index c key))
shard_of c key w =
    let (sh, e) = get_elem?-some c.shards (shard key) (omega (arith, w.count)) in
    let size = All-get_elem? (HasSize c.slots_per_shard) c.shards (shard key) sh w.sizes e in
    (sh, e, size, rw size (window-All c.slots_per_shard (base_index c key) w.some_slots))

-- Neither call panics on a well-formed cache.
pub get-total :
    (c : PreflightCache) (key : KeyBuf) (now : ℕ)
    → WellFormed c
    → (r : Option CachedDecision × PreflightCache) × (get c key now ≡ some r)
unfolding get
get-total c key now w =
    let (sh, e, size, inside) = shard_of c key w in
    let (f, g) = find-total key now sh (window c.slots_per_shard (base_index c key)) inside in
    (conclude c (shard key) sh f, rw (get, e, g) refl)

pub insert-total :
    (c : PreflightCache) (key : KeyBuf) (decision : CachedDecision) (now : ℕ)
    → WellFormed c
    → (c' : PreflightCache) × (insert c key decision now ≡ some c')
unfolding insert
insert-total c key decision now w =
    let (sh, e, size, inside) = shard_of c key w in
    let (p, g) =
      place-total key now sh (base_index c key % c.slots_per_shard)
        (window c.slots_per_shard (base_index c key)) none none inside in
    (store c (shard key) sh (slot_of c.ttl key decision now) p, rw (insert, e, g) refl)

pub new_cases :
    (slots ttl : ℕ) (c : PreflightCache)
    → new slots ttl ≡ some c
    → (1 ≤ ttl) × (c ≡ empty_table (per_shard slots) ttl)
unfolding new
new_cases slots ttl c h = elim (Bool-cases (ttl == 0)) [
  | inl e ↦ absurd (cc (rw (new, e) at h))
  | inr e ↦
      let made : some (empty_table (per_shard slots) ttl) ≡ some c = rw (new, e) at h in
      (ground arith, sym (some-injective _ _ made))
]

pub empty_table-WellFormed : (n ttl : ℕ) → 1 ≤ n → WellFormed (empty_table n ttl)
empty_table-WellFormed n ttl h =
    let empty : Shard = replicate n none in
    record {
      count = length-replicate num_shards empty;
      some_slots = h;
      sizes =
          All-replicate (HasSize n) num_shards empty (length-replicate {A = Option Slot} n none);
    }

pub per_shard-pos : (slots : ℕ) → 1 ≤ per_shard slots
per_shard-pos slots = omega arith

-- A write of a slot keeps the shape.
pub set-WellFormed :
    (c : PreflightCache) (s i entries hits misses : ℕ) (sh : Shard) (v : Option Slot)
    → WellFormed c
    → get_elem? c.shards s ≡ some sh
    → WellFormed (record c {
      shards = set c.shards s (set sh i v);
      entries = entries;
      hits = hits;
      misses = misses;
    })
set-WellFormed c s i entries hits misses sh v w e = record {
  count = length-set c.shards s (set sh i v) ∙ w.count;
  some_slots = w.some_slots;
  sizes =
      All-set (HasSize c.slots_per_shard) c.shards s (set sh i v) w.sizes
        (length-set sh i v ∙ All-get_elem? (HasSize c.slots_per_shard) c.shards s sh w.sizes e);
}

pub count-WellFormed :
    (c : PreflightCache) (entries hits misses : ℕ)
    → WellFormed c
    → WellFormed (record c { entries = entries; hits = hits; misses = misses })
count-WellFormed c entries hits misses w = record {
  count = w.count;
  some_slots = w.some_slots;
  sizes = w.sizes;
}

pub conclude-WellFormed :
    (c : PreflightCache) (s : ℕ) (sh : Shard) (f : Found)
    → WellFormed c
    → get_elem? c.shards s ≡ some sh
    → WellFormed (conclude c s sh f).1
unfolding conclude
conclude-WellFormed c s sh (live d) w e = count-WellFormed c _ _ _ w
conclude-WellFormed c s sh (expired i) w e = set-WellFormed c s i _ _ _ sh none w e
conclude-WellFormed c s sh absent w e = count-WellFormed c _ _ _ w

pub store-WellFormed :
    (c : PreflightCache) (s : ℕ) (sh : Shard) (slot : Slot) (p : Place)
    → WellFormed c
    → get_elem? c.shards s ≡ some sh
    → WellFormed (store c s sh slot p)
unfolding store
store-WellFormed c s sh slot (refresh i) w e = set-WellFormed c s i _ _ _ sh (some slot) w e
store-WellFormed c s sh slot (fill i) w e = set-WellFormed c s i _ _ _ sh (some slot) w e
store-WellFormed c s sh slot (reuse i) w e = set-WellFormed c s i _ _ _ sh (some slot) w e
