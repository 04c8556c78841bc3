-- ===== src/Preflight/Fresh.antt =====
-- A decision that was stored is served until it expires.
use sipi.Common.{
  ℕ, ◌+◌, ◌%◌, ◌/◌, ◌<◌, List, [], ◌∷◌, true, Option, none, some, ◌≡◌, refl, ap, sym, ◌∙◌, arith,
  get_elem?, set, All, length, inl, inr, subst, fetch_add, get_elem?-set_self, eq_iff, ==_iff,
}
use mathlib.Core.Option.{some-injective}
use sipi.Preflight.{
  KeyBuf, Slot, Shard, CachedDecision, PreflightCache, shard, base_index, window, Found, live, find,
  conclude, get, Place, refresh, fill, reuse, matches, slot_of, store, insert,
}
use sipi.Preflight.Scan.{Reaches, index, place-Reaches, find-Reaches}
use sipi.Preflight.Shape.{WellFormed, shard_of, find-total, place-total}

matches-slot_of :
    (ttl : ℕ) (key : KeyBuf) (decision : CachedDecision) (now : ℕ)
    → matches (slot_of ttl key decision now) key ≡ true
matches-slot_of ttl key decision now =
    rw ((==_iff key.fingerprint key.fingerprint).1 refl, (eq_iff key.bytes key.bytes).1 refl) refl

Reaches-inside :
    (key : KeyBuf) (sh : Shard) (n j : ℕ) (is : List ℕ)
    → All (λ i. i < n) is
    → Reaches key sh j is
    → j < n
Reaches-inside key sh n j [] a r = absurd r
Reaches-inside key sh n j (i ∷ is) a (inl e) = subst (λ k. k < n) e a.0
Reaches-inside key sh n j (i ∷ is) a (inr (p, r)) = Reaches-inside key sh n j is a.1 r

pub store-shards :
    (c : PreflightCache) (s : ℕ) (sh : Shard) (slot : Slot) (p : Place)
    → ((store c s sh slot p).shards ≡ set c.shards s (set sh (index p) (some slot)))
      × ((store c s sh slot p).slots_per_shard ≡ c.slots_per_shard)
unfolding store
store-shards c s sh slot (refresh i) = (refl, refl)
store-shards c s sh slot (fill i) = (refl, refl)
store-shards c s sh slot (reuse i) = (refl, refl)

pub get-found :
    (c : PreflightCache) (key : KeyBuf) (now : ℕ) (sh : Shard) (f : Found)
    → get_elem? c.shards (shard key) ≡ some sh
    → find key now sh (window c.slots_per_shard (base_index c key)) ≡ some f
    → get c key now ≡ some (conclude c (shard key) sh f)
unfolding get
get-found c key now sh f e g = rw (get, e, g) refl

-- A lookup is a scan of the window and what follows from it.
pub get_cases :
    (c : PreflightCache) (key : KeyBuf) (now : ℕ)
    → WellFormed c
    → (sh : Shard) × (f : Found) × (get_elem? c.shards (shard key) ≡ some sh)
      × (find key now sh (window c.slots_per_shard (base_index c key)) ≡ some f)
      × (get c key now ≡ some (conclude c (shard key) sh f))
get_cases c key now w =
    let (sh, e, size, inside) = shard_of c key w in
    let (f, g) = find-total key now sh (window c.slots_per_shard (base_index c key)) inside in
    (sh, f, e, g, get-found c key now sh f e g)

first_probe : (base n : ℕ) → (base + 0) % n ≡ base % n
first_probe base n = let e : base + 0 ≡ base = omega arith in ap (λ x. x % n) e

-- What `insert` leaves: one write, at a place that the scan reaches.
pub insert-Reaches :
    (c c' : PreflightCache) (key : KeyBuf) (decision : CachedDecision) (now : ℕ)
    → WellFormed c
    → insert c key decision now ≡ some c'
    → (sh : Shard) × (p : Place) × (get_elem? c.shards (shard key) ≡ some sh)
      × (c' ≡ store c (shard key) sh (slot_of c.ttl key decision now) p)
      × (length sh ≡ c.slots_per_shard)
      × (index p < length sh)
      × Reaches key sh (index p) (window c.slots_per_shard (base_index c key))
unfolding insert
insert-Reaches c c' key decision now w h =
    let (sh, e, size, inside) = shard_of c key w in
    let n = c.slots_per_shard in
    let base = base_index c key in
    let (p, g) = place-total key now sh (base % n) (window n base) none none inside in
    let same : ◌≡◌ {A = Option PreflightCache}
        (some (store c (shard key) sh (slot_of c.ttl key decision now) p)) (some c') =
      rw (insert, e, g) at h in
    let reached =
      place-Reaches key now sh (base % n) (λ j. Reaches key sh j (window n base)) none none
        (window n base) p (λ j r. r) (inl (first_probe base n)) (λ j x. absurd (cc))
        (λ j x y. absurd (cc)) g in
    (
      sh,
      p,
      e,
      sym (some-injective _ _ same),
      size,
      Reaches-inside key sh (length sh) (index p) (window n base) inside reached,
      reached,
    )

-- After an insertion, a lookup of the same key before the entry expires is a hit that returns the
-- stored decision, whatever else the cache holds.
pub get-insert :
    (c c' : PreflightCache) (key : KeyBuf) (decision : CachedDecision) (now later : ℕ)
    → WellFormed c
    → insert c key decision now ≡ some c'
    → later < now + c.ttl
    → get c' key later ≡ some (some decision, record c' { hits = fetch_add c'.hits })
unfolding get conclude
get-insert c c' key decision now later w h t =
    let (sh, p, at_shard, e, size, inside, reached) = insert-Reaches c c' key decision now w h in
    let slot = slot_of c.ttl key decision now in
    let (shards, width) = store-shards c (shard key) sh slot p in
    let found =
      find-Reaches key later sh slot (index p) (window c.slots_per_shard (base_index c key)) inside
        (matches-slot_of c.ttl key decision now) t reached in
    get-found c' key later (set sh (index p) (some slot)) (live decision)
      (ap (λ c. get_elem? c.shards (shard key)) e
        ∙ ap (λ xs. get_elem? xs (shard key)) shards
        ∙ get_elem?-set_self c.shards (shard key) (set sh (index p) (some slot))
            (omega (arith, w.count)))
      (ap (λ n. find key later (set sh (index p) (some slot)) (window n (key.fingerprint / 16 % n)))
          (ap (λ c. c.slots_per_shard) e ∙ width)
        ∙ found)
