-- ===== src/ConfigFile/Routes.antt =====
-- What the configured routes become: the entries, with the paths of their scripts.
use sipi.Common.{
  ℕ, zero, suc, List, [], ◌∷◌, ◌++◌, Bool, true, false, not, none, some, Text, codes, ◌==◌,
  is_empty, if◌then◌else◌, to_ascii_uppercase, Result, ok, err, ◌≡◌, ◌≢◌, ◌⊎◌, inl, inr, refl, ap,
  arith, Bool-cases, ◌>>=◌,
}
use sipi.Replies.{method_filter}
use sipi.Docroot.Handler.{trim_end_slashes}
use sipi.ConfigFile.{
  RouteSpec, RouteEntry, ConfigError, unknown_route_method, io, parse, missing_img_root,
  missing_script_dir, jpeg_quality_range, is_absolute, compose_script_path, listed,
  supported_methods, route_entry, route_entries,
}

abbrev pub slashes : ℕ → Text
slashes zero = []
slashes (suc n) = b'/' ∷ slashes n

-- The directory without the slashes at its end.
abbrev pub Stem : Text → Text → Type 0
Stem dir stem = ((n : ℕ) × (dir ≡ stem ++ slashes n)) × ((t : Text) → stem ≢ t ++ codes "/")

-- An absolute script as it is, another one under the directory.
abbrev pub ScriptPath : Text → Text → Text → Type 0
ScriptPath dir script path =
    ((is_absolute script ≡ true) × (path ≡ script))
    ⊎ ((is_absolute script ≡ false)
        × (stem : Text) × Stem dir stem
        × (path ≡ stem ++ (codes "/" ++ script)))

-- A route of the file, and what is registered for it: a method that the router accepts.
abbrev pub Entry : Text → RouteSpec → RouteEntry → Type 0
Entry dir r e =
    (method_filter (to_ascii_uppercase r.method) ≡ some e.method)
    × (e.route ≡ r.route)
    × ScriptPath dir r.script e.script

-- An entry for each route, in their order.
abbrev pub Registered : Text → List RouteSpec → List RouteEntry → Type 0
Registered dir [] [] = Unit
Registered dir [] (e ∷ es) = ⊥
Registered dir (r ∷ rs) [] = ⊥
Registered dir (r ∷ rs) (e ∷ es) = Entry dir r e × Registered dir rs es

-- One of the routes has the method, which the router does not accept.
abbrev pub Rejects : Text → List RouteSpec → Type 0
Rejects m [] = ⊥
Rejects m (r ∷ rs) = ((r.method ≡ m) × (method_filter (to_ascii_uppercase m) ≡ none)) ⊎ Rejects m rs

trimmed : ℕ → Text → Text
trimmed c rest = if is_empty rest then if c == b'/' then [] else c ∷ [] else c ∷ rest

slashes-trimmed :
    (c : ℕ) (s rest : Text) (n : ℕ)
    → s ≡ rest ++ slashes n
    → (k : ℕ) × (c ∷ s ≡ trimmed c rest ++ slashes k)
unfolding trimmed
slashes-trimmed c s [] n e = elim (Bool-cases (c == b'/')) [
  | inl h ↦ (suc n, ground arith)
  | inr h ↦ (n, ground arith)
]
slashes-trimmed c s (d ∷ rest) n e = (n, ap (λ t. c ∷ t) e)

slashes-trim : (s : Text) → (n : ℕ) × (s ≡ trim_end_slashes s ++ slashes n)
unfolding trim_end_slashes trimmed
slashes-trim [] = (0, refl)
slashes-trim (c ∷ s) = let (n, e) = slashes-trim s in slashes-trimmed c s (trim_end_slashes s) n e

trimmed-last :
    (c : ℕ) (rest t : Text) → ((u : Text) → rest ≢ u ++ codes "/") → trimmed c rest ≢ t ++ codes "/"
unfolding trimmed
trimmed-last c [] [] f h = ground arith
trimmed-last c [] (x ∷ []) f h = ground arith
trimmed-last c [] (x ∷ y ∷ t) f h = ground arith
trimmed-last c (d ∷ rest) [] f h = cc
trimmed-last c (d ∷ rest) (x ∷ t) f h = f t (cc)

trim-last : (s t : Text) → trim_end_slashes s ≢ t ++ codes "/"
unfolding trim_end_slashes trimmed
trim-last [] [] h = cc
trim-last [] (x ∷ t) h = cc
trim-last (c ∷ s) t h = trimmed-last c (trim_end_slashes s) t (trim-last s) h

compose_script_path_lem :
    (dir script : Text) → ScriptPath dir script (compose_script_path dir script)
unfolding compose_script_path
compose_script_path_lem dir script = at (is_absolute script) refl
  where
    at :
        (b : Bool)
        → is_absolute script ≡ b
        → ScriptPath dir script
            (if b then script else trim_end_slashes dir ++ (codes "/" ++ script))
    at true e = inl (e, refl)
    at false e = inr (e, trim_end_slashes dir, (slashes-trim dir, trim-last dir), refl)

listed-method_filter : (m : Text) → listed m supported_methods ≡ true → method_filter m ≡ some m
unfolding listed method_filter
listed-method_filter m h = ground arith

unlisted-method_filter : (m : Text) → listed m supported_methods ≡ false → method_filter m ≡ none
unfolding listed method_filter
unlisted-method_filter m h = ground arith

module _ (I P : Type 0) where
  -- What is known of each outcome for a route, and of each outcome for all of them.
  abbrev EntryCase : Text → RouteSpec → Result (ConfigError I P) RouteEntry → Type 0
  EntryCase dir r (ok e) = Entry dir r e
  EntryCase dir r (err (unknown_route_method m)) =
      (r.method ≡ m) × (method_filter (to_ascii_uppercase m) ≡ none)
  EntryCase dir r (err x) = ⊥

  abbrev pub RoutesCase :
      Text → List RouteSpec → Result (ConfigError I P) (List RouteEntry) → Type 0
  RoutesCase dir rs (ok es) = Registered dir rs es
  RoutesCase dir rs (err (unknown_route_method m)) = Rejects m rs
  RoutesCase dir rs (err x) = ⊥

  route_entry_lem : (dir : Text) (r : RouteSpec) → EntryCase dir r (route_entry I P dir r)
  unfolding route_entry
  route_entry_lem dir r = at (listed method supported_methods) refl
    where
      method : Text
      method = to_ascii_uppercase r.method

      at :
          (b : Bool)
          → listed method supported_methods ≡ b
          → EntryCase dir r (
              if not b
              then err (unknown_route_method r.method)
              else ok (record {
                method = method;
                route = r.route;
                script = compose_script_path dir r.script;
              }))
      at true e = (
        listed-method_filter (to_ascii_uppercase r.method) e,
        refl,
        compose_script_path_lem dir r.script,
      )
      at false e = (refl, unlisted-method_filter (to_ascii_uppercase r.method) e)

  routes-step :
      (dir : Text) (r : RouteSpec) (rs : List RouteSpec) (x : Result (ConfigError I P) RouteEntry)
      (y : Result (ConfigError I P) (List RouteEntry))
      → EntryCase dir r x
      → RoutesCase dir rs y
      → RoutesCase dir (r ∷ rs) (x >>= λ e. y >>= λ es. ok (e ∷ es))
  routes-step dir r rs (ok e) (ok es) p q = (p, q)
  routes-step dir r rs (ok e) (err (unknown_route_method m)) p q = inr q
  routes-step dir r rs (err (unknown_route_method m)) y p q = inl p
  routes-step dir r rs (ok e) (err (io x)) p q = elim q [ ]
  routes-step dir r rs (ok e) (err (parse x)) p q = elim q [ ]
  routes-step dir r rs (ok e) (err missing_img_root) p q = elim q [ ]
  routes-step dir r rs (ok e) (err missing_script_dir) p q = elim q [ ]
  routes-step dir r rs (ok e) (err (jpeg_quality_range x)) p q = elim q [ ]
  routes-step dir r rs (err (io x)) y p q = elim p [ ]
  routes-step dir r rs (err (parse x)) y p q = elim p [ ]
  routes-step dir r rs (err missing_img_root) y p q = elim p [ ]
  routes-step dir r rs (err missing_script_dir) y p q = elim p [ ]
  routes-step dir r rs (err (jpeg_quality_range x)) y p q = elim p [ ]

  pub route_entries_lem :
      (dir : Text) (rs : List RouteSpec) → RoutesCase dir rs (route_entries I P dir rs)
  unfolding route_entries
  route_entries_lem dir [] = tt
  route_entries_lem dir (r ∷ rs) =
      routes-step dir r rs (route_entry I P dir r) (route_entries I P dir rs)
        (route_entry_lem dir r) (route_entries_lem dir rs)
