-- ===== src/ConfigFile/Checked.antt =====
-- What the resolution of a configuration file has checked.
use sipi.Common.{
  ℤ, pos, negsuc, ◌≤◌, List, [], ◌∷◌, Bool, true, false, not, ◌&&◌, Option, none, some, Text,
  is_empty, if◌then◌else◌, unwrap_or, Result, ok, err, ◌≡◌, ◌≢◌, ◌⊎◌, inl, inr, refl, arith, subst,
  sym, ◌>>=◌,
}
use sipi.Config.{ServerOverrides, layered_over}
use sipi.ConfigFile.{
  Config, RouteSpec, RouteEntry, ConfigError, unknown_route_method, io, parse, missing_img_root,
  missing_script_dir, jpeg_quality_range, is_absolute, in_quality_range, has_relative,
  route_entries, base, resolve_routes, resolve_quality, resolve,
}
use sipi.ConfigFile.Routes.{Registered, Rejects, RoutesCase, route_entries_lem}

-- From 1 to 100.
abbrev pub InRange : ℤ → Type 0
InRange (pos q) = (1 ≤ q) × (q ≤ 100)
InRange (negsuc q) = ⊥

-- The quality, if one is set, is in the range.
abbrev pub QualityFits : Option ℤ → Type 0
QualityFits none = Unit
QualityFits (some q) = InRange q

-- One of the routes has a relative script.
abbrev pub SomeRelative : List RouteSpec → Type 0
SomeRelative [] = ⊥
SomeRelative (r ∷ rs) = (is_absolute r.script ≡ false) ⊎ SomeRelative rs

-- The directory that relative scripts are under, if there are any, is not empty.
abbrev pub DirGiven : Text → List RouteSpec → Type 0
DirGiven dir rs = SomeRelative rs → dir ≢ []

abbrev pub script_dir : {R : Type 0} → ServerOverrides R → Text
script_dir o = unwrap_or o.scriptdir []

relative_sound : (rs : List RouteSpec) → has_relative rs ≡ true → SomeRelative rs
unfolding has_relative
relative_sound [] h = cc
relative_sound (r ∷ rs) h = ground (arith, relative_sound rs)

relative_complete : (rs : List RouteSpec) → SomeRelative rs → has_relative rs ≡ true
unfolding has_relative
relative_complete [] h = elim h [ ]
relative_complete (r ∷ rs) (inl h) = ground arith
relative_complete (r ∷ rs) (inr h) = ground (arith, relative_complete rs h)

quality_sound : (q : ℤ) → in_quality_range q ≡ true → InRange q
unfolding in_quality_range
quality_sound (pos q) h = ground arith
quality_sound (negsuc q) h = cc

quality_complete : (q : ℤ) → in_quality_range q ≡ false → InRange q → ⊥
unfolding in_quality_range
quality_complete (pos q) h r = ground arith
quality_complete (negsuc q) h r = r

module _ (I P : Type 0) {R : Type 0} where
  -- What each outcome says of the layers `effective` and of the routes of the file.
  abbrev pub Checked :
      List RouteSpec
      → ServerOverrides R
      → Result (ConfigError I P) (ServerOverrides R × List RouteEntry)
      → Type 0
  Checked rs effective (ok (o, es)) =
      (o ≡ effective)
      × (effective.imgroot ≢ none)
      × QualityFits effective.jpeg_quality
      × DirGiven (script_dir effective) rs
      × Registered (script_dir effective) rs es
  Checked rs effective (err (io x)) = ⊥
  Checked rs effective (err (parse x)) = ⊥
  Checked rs effective (err missing_img_root) = effective.imgroot ≡ none
  Checked rs effective (err missing_script_dir) = SomeRelative rs × (script_dir effective ≡ [])
  Checked rs effective (err (jpeg_quality_range q)) =
      (effective.jpeg_quality ≡ some q) × (InRange q → ⊥)
  Checked rs effective (err (unknown_route_method m)) = Rejects m rs

  collected :
      (rs : List RouteSpec) (o : ServerOverrides R) (x : Result (ConfigError I P) (List RouteEntry))
      → o.imgroot ≢ none
      → QualityFits o.jpeg_quality
      → DirGiven (script_dir o) rs
      → RoutesCase I P (script_dir o) rs x
      → Checked rs o (x >>= λ es. ok (o, es))
  collected rs o (ok es) root fits dir h = (refl, root, fits, dir, h)
  collected rs o (err (unknown_route_method m)) root fits dir h = h
  collected rs o (err (io x)) root fits dir h = elim h [ ]
  collected rs o (err (parse x)) root fits dir h = elim h [ ]
  collected rs o (err missing_img_root) root fits dir h = elim h [ ]
  collected rs o (err missing_script_dir) root fits dir h = elim h [ ]
  collected rs o (err (jpeg_quality_range q)) root fits dir h = elim h [ ]

  resolve_routes-Checked :
      (rs : List RouteSpec) (o : ServerOverrides R)
      → o.imgroot ≢ none
      → QualityFits o.jpeg_quality
      → Checked rs o (resolve_routes I P rs o)
  unfolding resolve_routes
  resolve_routes-Checked rs o root fits = at (has_relative rs) (script_dir o) refl refl
    where
      at :
          (b : Bool) (dir : Text)
          → has_relative rs ≡ b
          → script_dir o ≡ dir
          → Checked rs o (
              if b && is_empty dir
              then err missing_script_dir
              else (route_entries I P (script_dir o) rs >>= λ es. ok (o, es)))
      at true [] e d = (relative_sound rs e, d)
      at true (c ∷ dir) e d =
          collected rs o (route_entries I P (script_dir o) rs) root fits (λ s h. cc)
            (route_entries_lem I P (script_dir o) rs)
      at false dir e d =
          collected rs o (route_entries I P (script_dir o) rs) root fits
            (λ s h. let t = relative_complete rs s in cc) (route_entries_lem I P (script_dir o) rs)

  quality-Checked :
      (rs : List RouteSpec) (o : ServerOverrides R) (q : ℤ) (b : Bool)
      → in_quality_range q ≡ b
      → o.imgroot ≢ none
      → o.jpeg_quality ≡ some q
      → Checked rs o (if not b then err (jpeg_quality_range q) else resolve_routes I P rs o)
  quality-Checked rs o q true e root d =
      resolve_routes-Checked rs o root (subst QualityFits (sym d) (quality_sound q e))
  quality-Checked rs o q false e root d = (d, quality_complete q e)

  resolve_quality-Checked :
      (rs : List RouteSpec) (o : ServerOverrides R)
      → o.imgroot ≢ none
      → Checked rs o (resolve_quality I P rs o)
  unfolding resolve_quality
  resolve_quality-Checked rs o root = at o.jpeg_quality refl
    where
      at :
          (q : Option ℤ)
          → o.jpeg_quality ≡ q
          → Checked rs o (elim q [
            | none ↦ resolve_routes I P rs o
            | some n ↦
                if not (in_quality_range n)
                then err (jpeg_quality_range n)
                else resolve_routes I P rs o
          ])
      at none e = resolve_routes-Checked rs o root (subst QualityFits (sym e) tt)
      at (some q) e = quality-Checked rs o q (in_quality_range q) refl root e

  -- A configuration resolves to its layers, with an entry that the router accepts for each route and a
  -- script path, only if there is an image root, the quality set is in 1 to 100 and relative scripts
  -- have a directory; each error tells the check that failed.
  pub resolve-Checked :
      (c : Config R) (cli : ServerOverrides R)
      → Checked c.routes (layered_over cli (base c)) (resolve I P c cli)
  unfolding resolve
  resolve-Checked c cli = at (layered_over cli (base c)).imgroot refl
    where
      at :
          (root : Option Text)
          → (layered_over cli (base c)).imgroot ≡ root
          → Checked c.routes (layered_over cli (base c)) (elim root [
            | none ↦ err missing_img_root
            | some t ↦ resolve_quality I P c.routes (layered_over cli (base c))
          ])
      at none e = e
      at (some t) e = resolve_quality-Checked c.routes (layered_over cli (base c)) (λ h. cc)
