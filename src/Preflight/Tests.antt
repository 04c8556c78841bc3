-- ===== src/Preflight/Tests.antt =====
-- A cache of 16 slots at work.
use sipi.Common.{List, [], ◌∷◌, Option, none, some, ◌≡◌, refl, arith, Text, codes}
use sipi.Preflight.{
  SipiPermType, CachedDecision, KeyBuf, PreflightCache, new, get, insert, place, store, empty_table,
}
use sipi.Preflight.Shape.{empty_table-WellFormed}
use sipi.Preflight.Fresh.{get-insert}
use sipi.Preflight.History.{Call, getting, inserting, after, Served, get-Served}
use sipi.Preflight.Keys.{key_bytes-injective}

abbrev decision : CachedDecision
decision = record {
  permission = SipiPermType.allow;
  kv = (codes "infile", codes "/images/lena.jp2") ∷ [];
}

-- A hash that sends all keys to one slot.
abbrev lena_key : KeyBuf
lena_key = record { bytes = codes "iiif lena"; fingerprint = 7 }

abbrev table : PreflightCache
table = empty_table 1 60

abbrev filled : PreflightCache
filled = record table {
  shards =
      (none ∷ [])
      ∷ (none ∷ [])
      ∷ (none ∷ [])
      ∷ (none ∷ [])
      ∷ (none ∷ [])
      ∷ (none ∷ [])
      ∷ (none ∷ [])
      ∷ (some
            (record { fingerprint = 7; key = codes "iiif lena"; expiry = 160; decision = decision })
          ∷ [])
      ∷ (none ∷ [])
      ∷ (none ∷ [])
      ∷ (none ∷ [])
      ∷ (none ∷ [])
      ∷ (none ∷ [])
      ∷ (none ∷ [])
      ∷ (none ∷ [])
      ∷ (none ∷ [])
      ∷ [];
  entries = 1;
}

new_test : new 16 60 ≡ some table
unfolding new
new_test = refl

insert_test : insert table lena_key decision 100 ≡ some filled
unfolding insert place store
insert_test = refl

get-insert_example : get filled lena_key 150 ≡ some (some decision, record filled { hits = 1 })
get-insert_example =
    get-insert table filled lena_key decision 100 150 (empty_table-WellFormed 1 60 (omega arith))
      insert_test (omega arith)

abbrev calls : List Call
calls = inserting lena_key decision 100 ∷ getting lena_key 90 ∷ []

get-Served_example :
    (c' : PreflightCache) × (o : Option CachedDecision) × (c'' : PreflightCache) × (after table
        calls
      ≡ some c')
    × (get c' lena_key 150 ≡ some (o, c''))
    × ((d : CachedDecision) → o ≡ some d → Served 60 calls lena_key 150 d)
get-Served_example = get-Served 16 60 table calls lena_key 150 new_test

key_bytes-injective_example :
    (codes "iiif" ≡ codes "iiif")
    × (codes "lena" ≡ codes "lena")
    × (some (codes "a") ≡ some (codes "a"))
    × (◌≡◌ {A = Option Text} none none)
key_bytes-injective_example =
    key_bytes-injective (codes "iiif") (codes "iiif") (codes "lena") (codes "lena")
      (some (codes "a")) (some (codes "a")) none none (omega arith) (omega arith) (omega arith)
      (omega arith) (omega arith) (omega arith) refl
