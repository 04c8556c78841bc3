-- ===== src/Bindings/Images/Parameters.antt =====
-- The parameters of a write that are accepted have values that their keys allow.
use sipi.Common.{
  List, [], ◌∷◌, Bool, true, false, ◌||◌, Option, none, some, ℤ, Text, codes, ◌=t=◌, eq_iff, trim,
  parse_i32, if◌then◌else◌, Result, ok, err, ◌>>=◌, AllOk, after_ok, All, All-append, ◌≡◌, ◌⊎◌, inl,
  inr, refl, arith,
}
use sipi.Settings.{Value, table, show_integer}
use sipi.Bindings.{Lua, coerce_string}
use sipi.Bindings.Images.{
  among, sprofile_values, corder_values, WriteParams, ParamsRefusal, add_param, write_param,
  no_params, validate_write_params, params_arg,
}

abbrev free_keys : List Text
free_keys = codes "Cprecincts" ∷ codes "Cblk" ∷ codes "rates" ∷ codes "quality" ∷ []

-- A compression parameter whose value the key allows.
abbrev pub Accepted : Text × Text → Type 0
Accepted (key, value) =
    ((key ≡ codes "Sprofile") × (among value sprofile_values ≡ true))
    ⊎ (((key ≡ codes "Creversible") ⊎ (key ≡ codes "Cuse_sop"))
        × ((value ≡ codes "yes") ⊎ (value ≡ codes "no")))
    ⊎ (((key ≡ codes "Clayers") ⊎ (key ≡ codes "Clevels")) × ((i : ℤ) × (value ≡ show_integer i)))
    ⊎ ((key ≡ codes "Corder") × (among value corder_values ≡ true))
    ⊎ (among key free_keys ≡ true)

abbrev pub Checked : WriteParams → Type 0
Checked p = All Accepted p.params

add_param-Checked :
    (key value : Text) (p : WriteParams)
    → Accepted (key, value)
    → Checked p
    → Checked (add_param key value p)
add_param-Checked key value p a c = All-append Accepted p.params ((key, value) ∷ []) c (a, tt)

if_ok :
    {E A : Type 0} (P : A → Type 0) (b : Bool) (x y : Result E A)
    → (b ≡ true → AllOk P x)
    → AllOk P y
    → AllOk P (if b then x else y)
if_ok P true x y f g = f refl
if_ok P false x y f g = g

either : (s t u : Text) → ((s =t= t) || (s =t= u)) ≡ true → (s ≡ t) ⊎ (s ≡ u)
either s t u h = ground (arith, eq_iff s t, eq_iff s u)

read_number :
    (key value : Text) (p : WriteParams) (o : Option ℤ) (e : ParamsRefusal)
    → ((key ≡ codes "Clayers") ⊎ (key ≡ codes "Clevels"))
    → Checked p
    → AllOk Checked (elim o as (λ _. Result ParamsRefusal WriteParams) [
      | some i ↦ ok (add_param key (show_integer i) p)
      | none ↦ err e
    ])
read_number key value p none e k c = tt
read_number key value p (some i) e k c =
    add_param-Checked key (show_integer i) p (inr (inr (inl (k, (i, refl))))) c

-- The keys that are no compression parameters.
names-Checked :
    (value : Text) (p : WriteParams) (e f : ParamsRefusal) (role service orig mime : Bool)
    → Checked p
    → AllOk Checked (
        if role
        then if service then ok (record p { file_role = some value }) else err e
        else if orig
        then ok (record p { origname = some value })
        else if mime
        then ok (record p { mimetype = some value })
        else err f)
names-Checked value p e f true true orig mime c = c
names-Checked value p e f true false orig mime c = tt
names-Checked value p e f false service true mime c = c
names-Checked value p e f false service false true c = c
names-Checked value p e f false service false false c = tt

write_param-Checked :
    (key value : Text) (p : WriteParams) → Checked p → AllOk Checked (write_param key value p)
unfolding write_param
write_param-Checked key value p c =
    if_ok Checked _ _ _
      (λ k.
        if_ok Checked _ _ _
          (λ v. add_param-Checked key value p (inl ((eq_iff key (codes "Sprofile")).0 k, v)) c) tt)
      (if_ok Checked _ _ _
        (λ k.
          if_ok Checked _ _ _
            (λ v.
              add_param-Checked key value p
                (inr (inl (either key _ _ k, either value (codes "yes") (codes "no") v))) c)
            tt)
        (if_ok Checked _ _ _
          (λ k. read_number key value p (parse_i32 (trim value)) _ (either key _ _ k) c)
          (if_ok Checked _ _ _
            (λ k.
              if_ok Checked _ _ _
                (λ v.
                  add_param-Checked key value p
                    (inr (inr (inr (inl ((eq_iff key (codes "Corder")).0 k, v))))) c)
                tt)
            (if_ok Checked _ _ _ (λ k. add_param-Checked key value p (inr (inr (inr (inr k)))) c)
              (names-Checked value p _ _ (key =t= codes "file_role")
                (value =t= codes "service-file") (key =t= codes "origname")
                (key =t= codes "mimetype") c)))))

module _ {F T I : Type 0} (lua : Lua F T) (image_of : Value F T → Option I) where
  pair-Checked :
      (key value : Option Text) (ps : List (Result Text (Value F T × Value F T))) (p : WriteParams)
      (e f : ParamsRefusal)
      → ((q : WriteParams) → Checked q → AllOk Checked (validate_write_params lua image_of ps q))
      → Checked p
      → AllOk Checked (elim key as (λ _. Result ParamsRefusal WriteParams) [
        | none ↦ err e
        | some k ↦ elim value as (λ _. Result ParamsRefusal WriteParams) [
          | none ↦ err f
          | some v ↦ write_param k v p >>= λ q. validate_write_params lua image_of ps q
        ]
      ])
  pair-Checked none value ps p e f ih c = tt
  pair-Checked (some k) none ps p e f ih c = tt
  pair-Checked (some k) (some v) ps p e f ih c =
      after_ok Checked Checked (write_param k v p) (validate_write_params lua image_of ps)
        (write_param-Checked k v p c) ih

  validate_write_params-Checked :
      (ps : List (Result Text (Value F T × Value F T))) (p : WriteParams)
      → Checked p
      → AllOk Checked (validate_write_params lua image_of ps p)
  unfolding validate_write_params
  validate_write_params-Checked [] p c = c
  validate_write_params-Checked (err e ∷ ps) p c = tt
  validate_write_params-Checked (ok (k, v) ∷ ps) p c =
      pair-Checked (coerce_string lua k) (coerce_string lua v) ps p _ _
        (validate_write_params-Checked ps) c

  pub params_arg-Checked : (args : List (Value F T)) → AllOk Checked (params_arg lua image_of args)
  unfolding params_arg
  params_arg-Checked (table t ∷ args) = validate_write_params-Checked (lua.pairs t) no_params tt
  params_arg-Checked _ = tt
