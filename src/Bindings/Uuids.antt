-- ===== src/Bindings/Uuids.antt =====
-- The functions on UUIDs, and that a script gets back the UUID that it has shortened. The random halves of a new
-- UUID are parameters.
use sipi.Common.{ℕ, List, [], ◌∷◌, none, some, codes, ◌≡◌, refl, ◌<◌, u64_mod}
use sipi.Settings.{Value, string}
use sipi.Uuid.{SoleUuid, base62, from_base62, new_v4}
use sipi.Uuid.Rounds.{from_base62-base62}
use sipi.Uuid.Hyphens.{hyphenated, from_hyphenated}
use sipi.Uuid.Groups.{from_hyphenated-hyphenated}
use sipi.Bindings.{Lua, Reply, text, failed, coerce_string}

unfoldable pub uuid_v4 : ℕ → ℕ → Reply
unfolding hyphenated new_v4
uuid_v4 ab cd = text (hyphenated (new_v4 ab cd))

unfoldable pub uuid62 : ℕ → ℕ → Reply
unfolding base62 new_v4
uuid62 ab cd = text (base62 (new_v4 ab cd))

module _ {F T : Type 0} (lua : Lua F T) where
  unfoldable pub uuid_to_base62 : List (Value F T) → Reply
  unfolding coerce_string from_hyphenated base62
  uuid_to_base62 [] = failed (codes "'server.uuid_tobase62(uuid)': uuid parameter missing")
  uuid_to_base62 (a ∷ args) = elim (coerce_string lua a) [
    | none ↦ failed (codes "'server.uuid_tobase62(uuid)': uuid is not a string")
    | some uuidstr ↦ elim (from_hyphenated uuidstr) [
      | none ↦ failed (codes "'server.uuid_tobase62(uuid)': uuid is not valid")
      | some u ↦ text (base62 u)
    ]
  ]

  unfoldable pub base62_to_uuid : List (Value F T) → Reply
  unfolding coerce_string from_base62 hyphenated
  base62_to_uuid [] = failed (codes "'server.base62_to_uuid(uuid62)': uuid62 parameter missing")
  base62_to_uuid (a ∷ args) = elim (coerce_string lua a) [
    | none ↦ failed (codes "'server.base62_to_uuid(uuid62)': uuid62 is not a string")
    | some b62 ↦ elim (from_base62 b62) [
      | none ↦ failed (codes "'server.base62_to_uuid(uuid62)': uuid62 is not valid")
      | some u ↦ text (hyphenated u)
    ]
  ]

  -- A script that shortens the hyphenated form of a UUID of two halves below 2^64 gets its base 62 form, and one
  -- that reads that form gets the hyphenated form back.
  pub base62_to_uuid-uuid_to_base62 :
      (u : SoleUuid)
      → u.ab < u64_mod
      → u.cd < u64_mod
      → (uuid_to_base62 (string (hyphenated u) ∷ []) ≡ text (base62 u))
        × (base62_to_uuid (string (base62 u) ∷ []) ≡ text (hyphenated u))
  unfolding uuid_to_base62 base62_to_uuid coerce_string
  base62_to_uuid-uuid_to_base62 u a b = (
    rw (uuid_to_base62, from_hyphenated-hyphenated u a b) refl,
    rw (base62_to_uuid, from_base62-base62 u a b) refl,
  )
