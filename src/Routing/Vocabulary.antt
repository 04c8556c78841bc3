-- ===== src/Routing/Vocabulary.antt =====
-- Which of the configured routes the router serves.
use sipi.Common.{
  ℕ, ◌+◌, List, [], ◌∷◌, ◌++◌, Bool, true, false, not, Option, none, some, Text, codes, ◌=t=◌,
  if◌then◌else◌, Result, ok, err, ◌>>=◌, ◌≡◌, ◌⊎◌, inl, inr, refl, arith, sym, subst, All, AllOk,
  after_ok, any_ok, ap, unwrap_or, eq_iff,
}
use sipi.Config.Lua.{LuaRouteSpec}
use sipi.ConfigFile.{RouteEntry, compose_script_path, listed}
use sipi.Docroot.Handler.{trim_end_slashes}
use sipi.Replies.{method_filter}
use sipi.Routing.{
  unknown_method, Row, RowValue, table, nil, other, Global, rows, no_table, route_methods, get_str,
  read_row, read_rows, read_routes, lua_entries, Registration, registrations,
}

abbrev pub In : {A : Type 0} → A → List A → Type 0
In x [] = ⊥
In x (y ∷ ys) = (x ≡ y) ⊎ In x ys

-- The entry is registered at its own path.
abbrev pub Routed : List Registration → RouteEntry → Type 0
Routed rs e = In (record { method = e.method; path = e.route; script = e.script }) rs

-- What a route of a Lua configuration becomes.
abbrev pub entry : Text → LuaRouteSpec → RouteEntry
entry dir r = record {
  method = r.method;
  route = r.route;
  script = compose_script_path dir r.script;
}

-- The method is one of a Lua configuration.
abbrev pub Worded : LuaRouteSpec → Type 0
Worded r = listed r.method route_methods ≡ true

read_row-Worded : (i : ℕ) (row : Row) → AllOk Worded (read_row i row)
unfolding read_row
read_row-Worded i row =
    after_ok (λ m. Unit) Worded (get_str i row (codes "method")) _
      (any_ok (get_str i row (codes "method")))
      (λ method u. at method (listed method route_methods) refl)
  where
    at :
        (method : Text) (b : Bool)
        → listed method route_methods ≡ b
        → AllOk Worded (
            if not b
            then err (unknown_method method)
            else (get_str i row (codes "route") >>= λ route.
                get_str i row (codes "script") >>= λ script.
                ok (record { method = method; route = route; script = script })))
    at method true e =
        after_ok (λ t. Unit) Worded (get_str i row (codes "route")) _
          (any_ok (get_str i row (codes "route")))
          (λ route u.
            after_ok (λ t. Unit) Worded (get_str i row (codes "script")) _
              (any_ok (get_str i row (codes "script"))) (λ script v. e))
    at method false e = tt

read_rows-Worded : (i : ℕ) (vs : List (Result Text RowValue)) → AllOk (All Worded) (read_rows i vs)
unfolding read_rows
read_rows-Worded i [] = tt
read_rows-Worded i (err e ∷ vs) = tt
read_rows-Worded i (ok nil ∷ vs) = tt
read_rows-Worded i (ok other ∷ vs) = tt
read_rows-Worded i (ok (table row) ∷ vs) =
    after_ok Worded (All Worded) (read_row i row) _ (read_row-Worded i row) (λ spec p.
      after_ok (All Worded) (All Worded) (read_rows (i + 1) vs) _ (read_rows-Worded (i + 1) vs)
        (λ specs q. (p, q)))

vocabulary :
    (m : Text)
    → listed m route_methods ≡ true
    → (method_filter m ≡ some m) ⊎ ((m =t= codes "CONNECT") ≡ true) ⊎ ((m =t= codes "OTHER") ≡ true)
unfolding listed method_filter
vocabulary m h = ground arith

pub read_routes-Worded : (g : Result Text Global) → AllOk (All Worded) (read_routes g)
unfolding read_routes
read_routes-Worded (err e) = tt
read_routes-Worded (ok no_table) = tt
read_routes-Worded (ok (rows vs)) = read_rows-Worded 1 vs

In-All : {A : Type 0} (P : A → Type 0) (x : A) (xs : List A) → In x xs → All P xs → P x
In-All P x [] h a = elim h [ ]
In-All P x (y ∷ ys) (inl e) a = subst P (sym e) a.0
In-All P x (y ∷ ys) (inr h) a = In-All P x ys h a.1

In-lua_entries :
    (dir : Text) (r : LuaRouteSpec) (rs : List LuaRouteSpec)
    → In r rs
    → In (entry dir r) (lua_entries dir rs)
unfolding lua_entries
In-lua_entries dir r [] h = h
In-lua_entries dir r (s ∷ rs) (inl e) = inl (ap (entry dir) e)
In-lua_entries dir r (s ∷ rs) (inr h) = inr (In-lua_entries dir r rs h)

-- What one entry adds.
abbrev added : Option Text → RouteEntry → List Registration → List Registration
added m e rs = elim m [
  | none ↦ rs
  | some t ↦
      record { method = t; path = e.route; script = e.script }
      ∷ (if e.route =t= codes "/"
          then rs
          else record {
            method = t;
            path = trim_end_slashes e.route ++ codes "/{*rest}";
            script = e.script;
          }
            ∷ rs)
]

In-if :
    (x y : Registration) (b : Bool) (rs : List Registration)
    → In x rs
    → In x (if b then rs else y ∷ rs)
In-if x y true rs h = h
In-if x y false rs h = inr h

In-added :
    (x : Registration) (m : Option Text) (e : RouteEntry) (rs : List Registration)
    → In x rs
    → In x (added m e rs)
In-added x none e rs h = h
In-added x (some t) e rs h = inr (In-if x _ (e.route =t= codes "/") rs h)

Routed-added :
    (m : Option Text) (e : RouteEntry) (rs : List Registration)
    → m ≡ some e.method
    → Routed (added m e rs) e
Routed-added none e rs h = elim (subst (λ o. elim o [ none ↦ Unit {0} | some t ↦ ⊥ ]) h tt) [ ]
Routed-added (some t) e rs h =
    inl (ap (λ n. record { method = unwrap_or n []; path = e.route; script = e.script }) (sym h))

registrations-Routed :
    (e : RouteEntry) (es : List RouteEntry)
    → method_filter e.method ≡ some e.method
    → In e es
    → Routed (registrations es) e
unfolding registrations
registrations-Routed e [] m h = h
registrations-Routed e (f ∷ es) m (inl h) =
    subst (λ d. Routed (added (method_filter f.method) f (registrations es)) d) (sym h)
      (Routed-added (method_filter f.method) f (registrations es)
        (subst (λ d. method_filter d.method ≡ some d.method) h m))
registrations-Routed e (f ∷ es) m (inr h) =
    In-added _ (method_filter f.method) f (registrations es) (registrations-Routed e es m h)

-- A route that is read from a Lua configuration is registered at its path with the path of its script,
-- unless its method is CONNECT or OTHER.
pub read_routes-Routed :
    (dir : Text) (g : Result Text Global) (rs : List LuaRouteSpec) (r : LuaRouteSpec)
    → read_routes g ≡ ok rs
    → In r rs
    → Routed (registrations (lua_entries dir rs)) (entry dir r)
      ⊎ (r.method ≡ codes "CONNECT")
      ⊎ (r.method ≡ codes "OTHER")
read_routes-Routed dir g rs r e h =
    let worded = In-All Worded r rs h (subst (AllOk (All Worded)) e (read_routes-Worded g)) in
    elim (vocabulary r.method worded) [
      | inl served ↦ inl (
          registrations-Routed (entry dir r) (lua_entries dir rs) served
            (In-lua_entries dir r rs h))
      | inr (inl m) ↦ inr (inl ((eq_iff r.method (codes "CONNECT")).0 m))
      | inr (inr m) ↦ inr (inr ((eq_iff r.method (codes "OTHER")).0 m))
    ]
