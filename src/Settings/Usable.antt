-- ===== src/Settings/Usable.antt =====
-- What a configuration that is read can be relied on for.
use sipi.Common.{
  ℕ, zero, suc, ◌≤◌, ℤ, pos, negsuc, List, [], false, Option, Text, codes, ◌==◌, if◌then◌else◌,
  Result, ok, err, ◌>>=◌, ◌≡◌, refl, subst, arith, All, AllOk, after_ok, any_ok, Bool-cases, inl,
  inr, ◌⊎◌,
}
use sipi.Config.Lua.{LuaConfigFile, LuaScalingQuality, LuaRouteSpec}
use sipi.Routing.{read_routes, RoutesError}
use sipi.Routing.Vocabulary.{Worded, read_routes-Worded}
use sipi.Settings.{
  LuaState, ConfigFailure, routes_error, invalid_cache_size, cfg_string, pick, read_cache_size,
  parse_size_string, not_negative, at_least_one,
}
use sipi.Settings.Reader.{as_routes, read_max_post_size, read_fields, read_config}

-- The text is a size.
abbrev pub IsSize : Text → Type 0
IsSize size = (v : ℤ) × (parse_size_string size ≡ ok v)

-- The text is a size, or -1.
abbrev pub IsCacheSize : Text → Type 0
IsCacheSize size =
    ((n : ℕ) × (parse_size_string size ≡ ok (pos n))) ⊎ (parse_size_string size ≡ ok (negsuc 0))

-- The integer is not less than the number.
abbrev pub AtLeast : ℕ → ℤ → Type 0
AtLeast k (pos n) = k ≤ n
AtLeast k (negsuc n) = ⊥

pub record IsUsable (cfg : LuaConfigFile) : Type 0 where
  pub cache_size : IsCacheSize cfg.cache_size
  pub max_post_size : IsSize cfg.max_post_size
  pub cache_nfiles : AtLeast 0 cfg.cache_nfiles
  pub drain_timeout : AtLeast 1 cfg.drain_timeout
  pub routes : All Worded cfg.routes

usable :
    (cfg : LuaConfigFile)
    → IsCacheSize cfg.cache_size
    → IsSize cfg.max_post_size
    → AtLeast 0 cfg.cache_nfiles
    → AtLeast 1 cfg.drain_timeout
    → All Worded cfg.routes
    → IsUsable cfg
usable cfg c m n d r = record {
  cache_size = c;
  max_post_size = m;
  cache_nfiles = n;
  drain_timeout = d;
  routes = r;
}

not_negative-AtLeast : (v : ℤ) → AtLeast 0 (not_negative v)
unfolding not_negative
not_negative-AtLeast (pos n) = omega arith
not_negative-AtLeast (negsuc n) = omega arith

at_least_one-AtLeast : (v : ℤ) → AtLeast 1 (at_least_one v)
unfolding at_least_one
at_least_one-AtLeast (pos n) = elim (Bool-cases (n == 0)) [
  | inl e ↦ rw e (omega arith)
  | inr e ↦ rw e (ground arith)
]
at_least_one-AtLeast (negsuc n) = omega arith

-- A step of whose value nothing is needed.
after_any :
    {E A B : Type 0} (Q : B → Type 0) (r : Result E A) (next : A → Result E B)
    → ((a : A) → AllOk Q (next a))
    → AllOk Q (r >>= next)
after_any Q r next f = after_ok (λ a. Unit {0}) Q r next (any_ok r) (λ a u. f a)

-- A step whose equation is kept.
after_eq :
    {E A B : Type 0} (Q : B → Type 0) (r : Result E A) (next : A → Result E B)
    → ((a : A) → r ≡ ok a → AllOk Q (next a))
    → AllOk Q (r >>= next)
after_eq Q (ok a) next f = f a refl
after_eq Q (err e) next f = tt

module _ {F T : Type 0} (vm : LuaState F T) where
  read_max_post_size-IsSize : (sipi : Option T) → AllOk IsSize (read_max_post_size vm sipi)
  unfolding read_max_post_size
  read_max_post_size-IsSize sipi =
      after_any IsSize (cfg_string vm sipi (codes "sipi") (codes "max_post_size") (codes "0")) _
        (λ size. after_eq IsSize (parse_size_string size) _ (λ v e. (v, e)))

  suc-ne-zero : (n : ℕ) → suc n == 0 ≡ false
  suc-ne-zero n = ground arith

  accepted :
      (size : Text) (v : ℤ)
      → parse_size_string size ≡ ok v
      → AllOk IsCacheSize (elim v as (λ x. Result ConfigFailure Text) [
        | pos n ↦ ok size
        | negsuc n ↦ if n == 0 then ok size else err (invalid_cache_size size)
      ])
  accepted size (pos n) e = inl (n, e)
  accepted size (negsuc zero) e = inr e
  accepted size (negsuc (suc n)) e = rw (suc-ne-zero n) tt

  read_cache_size-IsCacheSize : (sipi : Option T) → AllOk IsCacheSize (read_cache_size vm sipi)
  unfolding read_cache_size
  read_cache_size-IsCacheSize sipi =
      after_any IsCacheSize (cfg_string vm sipi (codes "sipi") (codes "cache_size") []) _ (λ new.
        after_any IsCacheSize (cfg_string vm sipi (codes "sipi") (codes "cachesize") []) _ (λ old.
          after_any IsCacheSize
            (pick vm new old (codes "cachesize") (codes "cache_size") (codes "200M")) _
            (λ size. after_eq IsCacheSize (parse_size_string size) _ (λ v e. accepted size v e))))

  after_routes :
      {B : Type 0} (Q : B → Type 0) (next : List LuaRouteSpec → Result ConfigFailure B)
      → ((rs : List LuaRouteSpec) → All Worded rs → AllOk Q (next rs))
      → AllOk Q (as_routes routes_error (read_routes vm.routes) >>= next)
  after_routes Q next f = at (read_routes vm.routes) (read_routes-Worded vm.routes)
    where
      at :
          (r : Result RoutesError (List LuaRouteSpec))
          → AllOk (All Worded) r
          → AllOk Q (as_routes routes_error r >>= next)
      at (ok rs) w = f rs w
      at (err e) w = tt

  read_fields-IsUsable :
      (sipi admin fileserver : Option T) (cache_dir cache_size max_post_size : Text)
      (quality : LuaScalingQuality)
      → IsCacheSize cache_size
      → IsSize max_post_size
      → AllOk IsUsable
          (read_fields vm sipi admin fileserver cache_dir cache_size max_post_size quality)
  unfolding read_fields
  read_fields-IsUsable sipi admin fileserver cache_dir cache_size max_post_size quality c m =
      search (after_any, after_routes, usable, not_negative-AtLeast, at_least_one-AtLeast) depth 30

  after_size :
      {B : Type 0} (Q : B → Type 0) (sipi : Option T) (next : Text → Result ConfigFailure B)
      → ((size : Text) → IsSize size → AllOk Q (next size))
      → AllOk Q (read_max_post_size vm sipi >>= next)
  after_size Q sipi next =
      after_ok IsSize Q (read_max_post_size vm sipi) next (read_max_post_size-IsSize sipi)

  after_cache_size :
      {B : Type 0} (Q : B → Type 0) (sipi : Option T) (next : Text → Result ConfigFailure B)
      → ((size : Text) → IsCacheSize size → AllOk Q (next size))
      → AllOk Q (read_cache_size vm sipi >>= next)
  after_cache_size Q sipi next =
      after_ok IsCacheSize Q (read_cache_size vm sipi) next (read_cache_size-IsCacheSize sipi)

  read_config-AllOk : AllOk IsUsable (read_config vm)
  unfolding read_config
  read_config-AllOk =
      search (after_any, after_size, after_cache_size, read_fields-IsUsable) depth 12

  -- In a configuration that is read, the cache size is a size or -1, the largest request has a size, the
  -- number of cached files is not negative, the drain takes at least a second, and each route has a method
  -- that a configuration may name.
  pub read_config-IsUsable : (cfg : LuaConfigFile) → read_config vm ≡ ok cfg → IsUsable cfg
  read_config-IsUsable cfg e = subst (AllOk IsUsable) e read_config-AllOk
