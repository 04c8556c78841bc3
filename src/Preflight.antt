-- ===== src/Preflight.antt =====
-- The cache of the preflight decisions: server-rs/src/preflight_cache.rs. A call holds the lock of
-- its shard from start to end, so that calls on a shard are atomic: each is a function from a cache to
-- a cache. An `Instant` is a number; `none` stands for a panic on an index out of bounds. The hash of the
-- key's bytes is a parameter.
pub mod Keys
pub mod Scan
pub mod Shape
pub mod Fresh
pub mod History
mod Tests
use sipi.Common.{
  ℕ, ◌+◌, ◌-◌, ◌*◌, ◌/◌, ◌%◌, List, [], ◌∷◌, ◌++◌, map, Bool, true, false, ◌&&◌, Option, none, some,
  Text, ◌=t=◌, if◌then◌else◌, ltb, leb, ◌==◌, max, fetch_add, fetch_sub, get_elem?, set, replicate,
  unwrap_or,
}

pub data SipiPermType : Type 0 where
  allow login clickthrough kiosk external restrict deny : SipiPermType

pub record CachedDecision : Type 0 where
  pub permission : SipiPermType
  pub kv : List (Text × Text)

pub record KeyBuf : Type 0 where
  pub bytes : Text
  pub fingerprint : ℕ

pub record Slot : Type 0 where
  pub fingerprint : ℕ
  pub key : Text
  pub expiry : ℕ
  pub decision : CachedDecision

abbrev pub Shard : Type 0
Shard = List (Option Slot)

-- The table, and the process-global counters HITS, MISSES and ENTRIES.
pub record PreflightCache : Type 0 where
  pub shards : List Shard
  pub slots_per_shard : ℕ
  pub ttl : ℕ
  pub hits : ℕ
  pub misses : ℕ
  pub entries : ℕ

abbrev pub num_shards : ℕ
num_shards = 16

-- The offsets below PROBE.
abbrev pub probes : List ℕ
probes = 0 ∷ 1 ∷ 2 ∷ 3 ∷ []

unfoldable pub push_optional : Text → Option Text → Text
push_optional bytes (some v) = bytes ++ 1 ∷ v
push_optional bytes none = bytes ++ 0 ∷ []

unfoldable pub key_bytes : Text → Text → Option Text → Option Text → Text
unfolding push_optional
key_bytes prefix identifier cookie authorization =
    push_optional (push_optional (prefix ++ 0 ∷ identifier ++ 0 ∷ []) cookie ++ 0 ∷ [])
      authorization

unfoldable pub make_key : (Text → ℕ) → Text → Text → Option Text → Option Text → KeyBuf
unfolding key_bytes
make_key hash prefix identifier cookie authorization =
    let bytes = key_bytes prefix identifier cookie authorization in
    record { bytes = bytes; fingerprint = hash bytes }

-- `slots.div_ceil(NUM_SHARDS).max(1)`.
abbrev pub per_shard : ℕ → ℕ
per_shard slots = max ((slots + (num_shards - 1)) / num_shards) 1

abbrev pub empty_table : ℕ → ℕ → PreflightCache
empty_table slots_per_shard ttl = record {
  shards = replicate num_shards (replicate slots_per_shard none);
  slots_per_shard = slots_per_shard;
  ttl = ttl;
  hits = 0;
  misses = 0;
  entries = 0;
}

-- No cache with a ttl of zero.
unfoldable pub new : ℕ → ℕ → Option PreflightCache
new slots ttl = if ttl == 0 then none else some (empty_table (per_shard slots) ttl)

-- The low four bits of the fingerprint pick the shard, the others the base slot.
abbrev pub shard : KeyBuf → ℕ
shard key = key.fingerprint % num_shards

abbrev pub base_index : PreflightCache → KeyBuf → ℕ
base_index c key = key.fingerprint / 16 % c.slots_per_shard

-- The probe window, `(base + i) % slots_per_shard`.
abbrev pub window : ℕ → ℕ → List ℕ
window slots_per_shard base = map (λ i. (base + i) % slots_per_shard) probes

abbrev pub matches : Slot → KeyBuf → Bool
matches slot key = slot.fingerprint == key.fingerprint && slot.key =t= key.bytes

-- What the loop of `get` finds.
pub data Found : Type 0 where
  live : CachedDecision → Found
  expired : ℕ → Found
  absent : Found

unfoldable pub find : KeyBuf → ℕ → Shard → List ℕ → Option Found
find key now sh [] = some absent
find key now sh (idx ∷ is) =
    let rest = find key now sh is in
    elim (get_elem? sh idx) [
      | none ↦ none
      | some none ↦ rest
      | some (some slot) ↦
          if matches slot key
          then if ltb now slot.expiry then some (live slot.decision) else some (expired idx)
          else rest
    ]

unfoldable pub conclude :
    PreflightCache → ℕ → Shard → Found → Option CachedDecision × PreflightCache
conclude c s sh (live decision) = (some decision, record c { hits = fetch_add c.hits })
conclude c s sh (expired idx) = (
  none,
  record c {
    shards = set c.shards s (set sh idx none);
    entries = fetch_sub c.entries;
    misses = fetch_add c.misses;
  },
)
conclude c s sh absent = (none, record c { misses = fetch_add c.misses })

unfoldable pub get : PreflightCache → KeyBuf → ℕ → Option (Option CachedDecision × PreflightCache)
unfolding find conclude
get c key now = elim (get_elem? c.shards (shard key)) [
  | none ↦ none
  | some sh ↦ elim (find key now sh (window c.slots_per_shard (base_index c key))) [
    | none ↦ none
    | some found ↦ some (conclude c (shard key) sh found)
  ]
]

-- Where the loop of `insert` puts the entry: over one of the same key, in an empty slot, or over the
-- victim when the window is full.
pub data Place : Type 0 where
  refresh fill reuse : ℕ → Place

abbrev or_else : Option ℕ → Option ℕ → Option ℕ
or_else none b = b
or_else (some i) b = some i

abbrev index_of : Option (ℕ × ℕ) → Option ℕ
index_of none = none
index_of (some (i, e)) = some i

abbrev pub get_or_insert : Option ℕ → ℕ → Option ℕ
get_or_insert none i = some i
get_or_insert (some j) i = some j

abbrev pub older : Option (ℕ × ℕ) → ℕ → ℕ → Option (ℕ × ℕ)
older none idx expiry = some (idx, expiry)
older (some (i, e)) idx expiry = if ltb expiry e then some (idx, expiry) else some (i, e)

-- `free.or(oldest.map(|(i, _)| i)).unwrap_or(..)`.
abbrev pub victim : Option ℕ → Option (ℕ × ℕ) → ℕ → ℕ
victim free oldest last = unwrap_or (or_else free (index_of oldest)) last

unfoldable pub place : KeyBuf → ℕ → Shard → ℕ → Option ℕ → Option (ℕ × ℕ) → List ℕ → Option Place
place key now sh last free oldest [] = some (reuse (victim free oldest last))
place key now sh last free oldest (idx ∷ is) = elim (get_elem? sh idx) [
  | none ↦ none
  | some none ↦ some (fill idx)
  | some (some slot) ↦
      let rest =
        place key now sh last (if leb slot.expiry now then get_or_insert free idx else free)
          (older oldest idx slot.expiry) is in
      if matches slot key then some (refresh idx) else rest
]

abbrev pub slot_of : ℕ → KeyBuf → CachedDecision → ℕ → Slot
slot_of ttl key decision now = record {
  fingerprint = key.fingerprint;
  key = key.bytes;
  expiry = now + ttl;
  decision = decision;
}

unfoldable pub store : PreflightCache → ℕ → Shard → Slot → Place → PreflightCache
store c s sh slot (refresh i) = record c { shards = set c.shards s (set sh i (some slot)) }
store c s sh slot (reuse i) = record c { shards = set c.shards s (set sh i (some slot)) }
store c s sh slot (fill i) = record c {
  shards = set c.shards s (set sh i (some slot));
  entries = fetch_add c.entries;
}

unfoldable pub insert : PreflightCache → KeyBuf → CachedDecision → ℕ → Option PreflightCache
unfolding place store
insert c key decision now =
    let base = base_index c key in
    elim (get_elem? c.shards (shard key)) [
      | none ↦ none
      | some sh ↦
          elim (place key now sh (base % c.slots_per_shard) none none
            (window c.slots_per_shard base)) [
              | none ↦ none
              | some p ↦ some (store c (shard key) sh (slot_of c.ttl key decision now) p)
            ]
    ]
