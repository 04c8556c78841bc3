-- ===== src/Config/Lua/Range.antt =====
-- Which numbers of a Lua configuration a layer of overrides holds.
use sipi.Common.{
  ℕ, ◌^◌, ◌<◌, ℤ, pos, negsuc, Option, none, some, Text, codes, Result, ok, err, ◌>>=◌, ◌≡◌, ◌⊎◌,
  inl, inr, refl, arith,
}
use sipi.Config.{ServerOverrides}
use sipi.Config.Lua.{
  LuaConfigFile, OutOfRange, to_unsigned, to_i32, narrow, lua_layer, from_lua_config,
}

-- The integer is the number, of `w` bits.
abbrev pub IsUnsigned : ℕ → ℤ → ℕ → Type 0
IsUnsigned w z n = (z ≡ pos n) × (n < 2 ^ w)

-- The integer is at least -2^31 and below 2^31.
abbrev pub FitsI32 : ℤ → Type 0
FitsI32 (pos n) = n < 2 ^ 31
FitsI32 (negsuc n) = n < 2 ^ 31

abbrev pub IsI32 : ℤ → ℤ → Type 0
IsI32 z y = (y ≡ z) × FitsI32 z

-- The error names a key and its value, which is of the type no value.
abbrev pub Misfit : {T : Type 0} → (ℤ → T → Type 0) → Text → ℤ → OutOfRange → Type 0
Misfit {T} Fits key z e = (e.key ≡ key) × (e.value ≡ z) × ((t : T) → Fits z t → ⊥)

-- A narrowed value fits, and an error is a misfit.
abbrev Narrowed : {T : Type 0} → (ℤ → T → Type 0) → Text → ℤ → Result OutOfRange T → Type 0
Narrowed Fits key z (ok t) = Fits z t
Narrowed Fits key z (err e) = Misfit Fits key z e

narrow_lem :
    {T : Type 0} (Fits : ℤ → T → Type 0) (try_from : ℤ → Option T) (z : ℤ) (key : Text)
    → ((t : T) → try_from z ≡ some t → Fits z t)
    → (try_from z ≡ none → (t : T) → Fits z t → ⊥)
    → Narrowed Fits key z (narrow try_from z key)
unfolding narrow
narrow_lem {T} Fits try_from z key sound complete = at (try_from z) refl
  where
    at :
        (o : Option T)
        → try_from z ≡ o
        → Narrowed Fits key z
            (elim o [ none ↦ err (record { key = key; value = z }) | some t ↦ ok t ])
    at none e = (refl, refl, complete e)
    at (some t) e = sound t e

narrow-IsUnsigned :
    (w : ℕ) (z : ℤ) (key : Text) → Narrowed (IsUnsigned w) key z (narrow (to_unsigned w) z key)
unfolding to_unsigned
narrow-IsUnsigned w (pos n) key =
    narrow_lem (IsUnsigned w) (to_unsigned w) (pos n) key (λ t e. ground arith)
      (λ e t f. ground arith)
narrow-IsUnsigned w (negsuc n) key =
    narrow_lem (IsUnsigned w) (to_unsigned w) (negsuc n) key (λ t e. cc) (λ e t f. cc)

narrow-IsI32 : (z : ℤ) (key : Text) → Narrowed IsI32 key z (narrow to_i32 z key)
unfolding to_i32
narrow-IsI32 (pos n) key =
    narrow_lem IsI32 to_i32 (pos n) key (λ t e. ground arith) (λ e t f. ground arith)
narrow-IsI32 (negsuc n) key =
    narrow_lem IsI32 to_i32 (negsuc n) key (λ t e. ground arith) (λ e t f. ground arith)

after_narrow :
    {T A : Type 0} (Fits : ℤ → T → Type 0) (key : Text) (z : ℤ) (r : Result OutOfRange T)
    (next : T → Result OutOfRange A) (Goal : Result OutOfRange A → Type 0)
    → Narrowed Fits key z r
    → ((e : OutOfRange) → Misfit Fits key z e → Goal (err e))
    → ((t : T) → Fits z t → Goal (next t))
    → Goal (r >>= next)
after_narrow Fits key z (ok t) next Goal h failed fits = fits t h
after_narrow Fits key z (err e) next Goal h failed fits = failed e h

after_unsigned :
    {A : Type 0} (w : ℕ) (z : ℤ) (key : Text) (next : ℕ → Result OutOfRange A)
    (Goal : Result OutOfRange A → Type 0)
    → ((e : OutOfRange) → Misfit (IsUnsigned w) key z e → Goal (err e))
    → ((n : ℕ) → IsUnsigned w z n → Goal (next n))
    → Goal (narrow (to_unsigned w) z key >>= next)
after_unsigned w z key next Goal =
    after_narrow (IsUnsigned w) key z (narrow (to_unsigned w) z key) next Goal
      (narrow-IsUnsigned w z key)

after_i32 :
    {A : Type 0} (z : ℤ) (key : Text) (next : ℤ → Result OutOfRange A)
    (Goal : Result OutOfRange A → Type 0)
    → ((e : OutOfRange) → Misfit IsI32 key z e → Goal (err e))
    → ((y : ℤ) → IsI32 z y → Goal (next y))
    → Goal (narrow to_i32 z key >>= next)
after_i32 z key next Goal =
    after_narrow IsI32 key z (narrow to_i32 z key) next Goal (narrow-IsI32 z key)

module _ (R : Type 0) where
  -- What each outcome says of the numbers of the file.
  abbrev pub Ranged : LuaConfigFile → Result OutOfRange (ServerOverrides R) → Type 0
  Ranged cfg (ok o) =
      (port : ℕ) × (age : ℤ) × (nfiles : ℕ) × (quality : ℤ) × (ssl_port : ℤ) × IsUnsigned 16
        cfg.port port
      × IsI32 cfg.max_temp_file_age age
      × IsUnsigned 32 cfg.cache_nfiles nfiles
      × IsI32 cfg.jpeg_quality quality
      × IsI32 cfg.ssl_port ssl_port
      × (o.serverport ≡ some port)
      × (o.maxtmpage ≡ some age)
      × (o.cache_nfiles ≡ some nfiles)
      × (o.jpeg_quality ≡ some quality)
      × (o.sslport ≡ some ssl_port)
  Ranged cfg (err e) =
      Misfit (IsUnsigned 16) (codes "sipi.port") cfg.port e
      ⊎ Misfit IsI32 (codes "sipi.max_temp_file_age") cfg.max_temp_file_age e
      ⊎ Misfit (IsUnsigned 32) (codes "sipi.cache_nfiles") cfg.cache_nfiles e
      ⊎ Misfit IsI32 (codes "sipi.jpeg_quality") cfg.jpeg_quality e
      ⊎ Misfit IsI32 (codes "sipi.ssl_port") cfg.ssl_port e

  -- A Lua configuration is a layer of overrides that holds its five numbers unchanged, exactly if each
  -- fits its machine type; the error names a key whose number does not, and that number.
  pub from_lua_config-Ranged : (cfg : LuaConfigFile) → Ranged cfg (from_lua_config R cfg)
  unfolding from_lua_config lua_layer
  from_lua_config-Ranged cfg =
      after_unsigned 16 cfg.port (codes "sipi.port") _ (Ranged cfg) (λ e m. inl m)
        (λ port p.
          after_i32 cfg.max_temp_file_age (codes "sipi.max_temp_file_age") _ (Ranged cfg)
            (λ e m. inr (inl m))
            (λ age a.
              after_unsigned 32 cfg.cache_nfiles (codes "sipi.cache_nfiles") _ (Ranged cfg)
                (λ e m. inr (inr (inl m)))
                (λ nfiles n.
                  after_i32 cfg.jpeg_quality (codes "sipi.jpeg_quality") _ (Ranged cfg)
                    (λ e m. inr (inr (inr (inl m))))
                    (λ quality q.
                      after_i32 cfg.ssl_port (codes "sipi.ssl_port") _ (Ranged cfg)
                        (λ e m. inr (inr (inr (inr m))))
                        (λ ssl s. (
                          port, age, nfiles, quality, ssl, p, a, n, q, s, refl, refl, refl, refl,
                          refl,
                        ))))))
