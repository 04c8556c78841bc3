-- ===== src/Bindings/Images/ServiceFiles.antt =====
-- What the engine is asked for by a script that writes an image.
use sipi.Common.{
  List, [], ◌∷◌, Bool, true, false, ◌||◌, Option, none, some, Text, codes, drop, ◌=t=◌, eq_iff,
  if◌then◌else◌, Result, ok, err, ◌>>=◌, AllOk, All, ◌≡◌, ◌⊎◌, inl, inr, refl, arith,
}
use sipi.Settings.{Value, string}
use sipi.Bindings.{Lua, Reply, text, failed, raised}
use sipi.Bindings.Images.{
  among, WriteParams, ParamsRefusal, map_extension, split_path, Job, write_file, send_bytes,
  essentials_of, write_job, image_arg, params_arg, plan_with, write_plan, written, image_write,
}
use sipi.Bindings.Images.Parameters.{Accepted, Checked, params_arg-Checked}

-- What the engine is asked for is in order.
abbrev IsFormat : Text → Type 0
IsFormat f = among f (codes "tif" ∷ codes "jpg" ∷ codes "png" ∷ codes "jpx" ∷ []) ≡ true

abbrev pub SoundJob : Job → Type 0
SoundJob (send_bytes f params) = IsFormat f × All Accepted params
SoundJob (write_file f path params none) = IsFormat f × All Accepted params
SoundJob (write_file f path params (some names)) =
    ((f ≡ codes "jpx") ⊎ (f ≡ codes "tif")) × IsFormat f × All Accepted params

map_extension-IsFormat :
    (extension f : Text) (b : Bool) → map_extension extension b ≡ some f → IsFormat f
unfolding map_extension among
map_extension-IsFormat extension f b h = ground arith

essentials_of-carrier :
    (f : Text) (p : WriteParams) (names : Text × Text)
    → essentials_of f p ≡ ok (some names)
    → (f ≡ codes "jpx") ⊎ (f ≡ codes "tif")
unfolding essentials_of
essentials_of-carrier f p names h = ground (arith, eq_iff f (codes "jpx"), eq_iff f (codes "tif"))

chosen-SoundJob :
    (http : Bool) (f path : Text) (p : WriteParams) (names : Option (Text × Text))
    → IsFormat f
    → Checked p
    → essentials_of f p ≡ ok names
    → SoundJob (if http then send_bytes f p.params else write_file f path p.params names)
chosen-SoundJob true f path p names h c e = (h, c)
chosen-SoundJob false f path p none h c e = (h, c)
chosen-SoundJob false f path p (some names) h c e = (essentials_of-carrier f p names e, h, c)

bind_each :
    {E A B : Type 0} (Q : B → Type 0) (r : Result E A) (next : A → Result E B)
    → ((a : A) → r ≡ ok a → AllOk Q (next a))
    → AllOk Q (r >>= next)
bind_each Q (ok a) next f = f a refl
bind_each Q (err e) next f = tt

format-SoundJob :
    (o : Option Text) (http : Bool) (path e : Text) (p : WriteParams)
    → ((f : Text) → o ≡ some f → IsFormat f)
    → Checked p
    → AllOk SoundJob (elim o as (λ _. Result Text Job) [
      | none ↦ err e
      | some ftype ↦ essentials_of ftype p >>= λ essentials.
          ok (if http then send_bytes ftype p.params else write_file ftype path p.params essentials)
    ])
format-SoundJob none http path e p h c = tt
format-SoundJob (some f) http path e p h c =
    bind_each SoundJob (essentials_of f p)
      (λ names. ok (if http then send_bytes f p.params else write_file f path p.params names))
      (λ names. chosen-SoundJob http f path p names (h f refl) c)

write_job-SoundJob : (path : Text) (p : WriteParams) → Checked p → AllOk SoundJob (write_job path p)
unfolding write_job
write_job-SoundJob path p c =
    format-SoundJob (map_extension (split_path path).1 true)
      ((split_path path).0 =t= codes "http" || (split_path path).0 =t= codes "HTTP") path _ p
      (λ f. map_extension-IsFormat (split_path path).1 f true) c

module _ {F T I : Type 0} (lua : Lua F T) (image_of : Value F T → Option I) where
  -- Nothing was done, or the engine was asked once for what is in order.
  abbrev pub Asked :
      {W : Type 0} → (I → Job → W → Result Text (Unit {0}) × W) → W → Reply × W → Type 0
  Asked engine w result =
      (result.1 ≡ w)
      ⊎ ((i : I) × (path : Text) × (job : Job) × SoundJob job
          × (result ≡ written lua image_of engine (text path) (engine i job w)))

  abbrev Planned : I × Text × Job → Type 0
  Planned (i, path, job) = SoundJob job

  job-Planned :
      (i : I) (path : Text) (r : Result Text Job)
      → AllOk SoundJob r
      → AllOk Planned (elim r as (λ _. Result Reply (I × Text × Job)) [
        | err t ↦ err (raised t)
        | ok job ↦ ok (i, path, job)
      ])
  job-Planned i path (err t) s = tt
  job-Planned i path (ok job) s = s

  plan_with-Planned :
      (i : I) (path : Text) (r : Result ParamsRefusal WriteParams)
      → AllOk Checked r
      → AllOk Planned (plan_with lua image_of i path r)
  plan_with-Planned i path (err r) c = tt
  plan_with-Planned i path (ok p) c =
      job-Planned i path (write_job path p) (write_job-SoundJob path p c)

  args-Planned :
      (r : Result Text I) (args : List (Value F T)) (e : Text)
      → AllOk Planned (elim r as (λ _. Result Reply (I × Text × Job)) [
        | err t ↦ err (failed t)
        | ok i ↦ elim args [
          | string imgpath ∷ rest ↦ plan_with lua image_of i imgpath (params_arg lua image_of rest)
          | _ ↦ err (failed e)
        ]
      ])
  args-Planned (err t) args e = tt
  args-Planned (ok i) (string path ∷ rest) e =
      plan_with-Planned i path (params_arg lua image_of rest) (params_arg-Checked lua image_of rest)
  args-Planned (ok i) _ e = tt

  write_plan-Planned : (args : List (Value F T)) → AllOk Planned (write_plan lua image_of args)
  unfolding write_plan
  write_plan-Planned args =
      args-Planned (image_arg lua image_of args (codes "write")) (drop 1 args) _

  module _ {W : Type 0} (engine : I → Job → W → Result Text (Unit {0}) × W) where
    plan-Asked :
        (r : Result Reply (I × Text × Job)) (w : W)
        → AllOk Planned r
        → Asked engine w (elim r as (λ _. Reply × W) [
          | err t ↦ (t, w)
          | ok (i, path, job) ↦ written lua image_of engine (text path) (engine i job w)
        ])
    plan-Asked (err t) w s = inl refl
    plan-Asked (ok (i, path, job)) w s = inr (i, path, job, s, refl)

    -- Whatever the arguments of a write, nothing is done, or the engine is asked once: for a format that it
    -- knows, with compression parameters whose values their keys allow, and for a service file only as JPEG 2000
    -- or TIFF; the reply is the path, or the engine's error.
    pub image_write-Asked :
        (args : List (Value F T)) (w : W) → Asked engine w (image_write lua image_of engine args w)
    unfolding image_write
    image_write-Asked args w = plan-Asked (write_plan lua image_of args) w (write_plan-Planned args)
