-- ===== src/Scripts/Permissions.antt =====
-- What a hook may decide, and which file the server reads off its decision.
use sipi.Common.{
  List, [], ◌∷◌, ◌++◌, Bool, true, Option, none, some, Text, codes, ◌=t=◌, eq_iff, unwrap_or,
  if◌then◌else◌, ◌≡◌, ◌≢◌, ◌⊎◌, inl, inr, refl, subst, sym, ◌∙◌, ap, Result, ok, err, Result-cases,
  Bool-cases, ok-injective, ℤ, arith,
}
use sipi.Access.{decision, lookup, access_from, permission_from_str}
use sipi.Scripts.{RuntimeError, killed, other, Script, ResponseWriter, run, new_writer}
use sipi.Scripts.Hook.{
  Scalar, string, nil, another, Value, scalar, table, Buffer, valid_permission, type_of, extra_keys,
  permission_of, infile_of, with_infile, parse_preflight_values, direct_reply, reply_of, run_hook,
  buffering,
}

-- The words for a permission: four for every hook, and three more for the hook of an image.
abbrev pub Vocabulary : Bool → Text → Type 0
Vocabulary extended p =
    (p ≡ codes "allow")
    ⊎ (p ≡ codes "login")
    ⊎ (p ≡ codes "restrict")
    ⊎ (p ≡ codes "deny")
    ⊎ ((extended ≡ true)
        × ((p ≡ codes "clickthrough") ⊎ (p ≡ codes "kiosk") ⊎ (p ≡ codes "external")))

-- The first value is the permission, or a table that has it as its type.
abbrev pub Says : List Value → Text → Type 0
Says (scalar (string s) ∷ vs) p = s ≡ p
Says (table t ∷ vs) p = type_of t ≡ string p
Says _ p = ⊥

-- The file among the keys of a table.
abbrev own_key : List (Scalar × Scalar) → Option Text
own_key [] = none
own_key ((string k, string v) ∷ t) =
    let rest = own_key t in if k =t= codes "infile" then some v else rest
own_key (x ∷ t) = own_key t

abbrev own_file : List Value → Option Text
own_file (table t ∷ vs) = own_key t
own_file _ = none

-- The file that the second value names; a denial names none.
abbrev second : List Value → Option Text
second (v ∷ scalar (string s) ∷ vs) = some s
second _ = none

abbrev Second : List Value → Text → Text → Type 0
Second vs p f = ((p ≡ codes "deny") × (f ≡ [])) ⊎ ((p ≢ codes "deny") × (second vs ≡ some f))

-- The file of a table's own keys comes first, even for a denial.
abbrev Names : Option Text → List Value → Text → Text → Type 0
Names (some own) vs p f = f ≡ own
Names none vs p f = Second vs p f

abbrev pub IsFile : List Value → Text → Text → Type 0
IsFile vs p f = Names (own_file vs) vs p f

valid_permission-Vocabulary :
    (p : Text) (extended : Bool) → valid_permission p extended ≡ true → Vocabulary extended p
unfolding valid_permission
valid_permission-Vocabulary p extended h = ground (
  arith,
  eq_iff p (codes "allow"),
  eq_iff p (codes "login"),
  eq_iff p (codes "restrict"),
  eq_iff p (codes "deny"),
  eq_iff p (codes "clickthrough"),
  eq_iff p (codes "kiosk"),
  eq_iff p (codes "external"),
)

-- The pairs that a table leaves hold its own file, if it has one.
extra_keys-own :
    (t : List (Scalar × Scalar)) (kv : List (Text × Text))
    → extra_keys t ≡ ok kv
    → lookup (codes "infile") kv ≡ own_key t
unfolding extra_keys lookup
extra_keys-own [] kv h = ap (lookup (codes "infile")) (sym (ok-injective h))
extra_keys-own ((nil, v) ∷ t) kv h = extra_keys-own t kv h
extra_keys-own ((another, v) ∷ t) kv h = extra_keys-own t kv h
extra_keys-own ((string k, string v) ∷ t) kv h = elim (Bool-cases (k =t= codes "type")) [
  | inl e ↦ ground (arith, eq_iff k (codes "type"), eq_iff k (codes "infile"), extra_keys-own t kv)
  | inr e ↦ elim (Result-cases (extra_keys t)) [
    | inl (x, f) ↦ absurd (ground arith)
    | inr (kv', f) ↦
        let same : kv ≡ (k, v) ∷ kv' = ground arith in rw same (rw (extra_keys-own t kv' f) refl)
  ]
]
extra_keys-own ((string k, nil) ∷ t) kv h = ground (arith, extra_keys-own t kv)
extra_keys-own ((string k, another) ∷ t) kv h = ground (arith, extra_keys-own t kv)

permission_of-Says :
    (v : Value) (vs : List Value) (p : Text) (kv : List (Text × Text))
    → permission_of v ≡ ok (p, kv)
    → Says (v ∷ vs) p × (lookup (codes "infile") kv ≡ own_file (v ∷ vs))
unfolding permission_of lookup
permission_of-Says (scalar (string s)) vs p kv h =
    (ap (λ x. x.0) (ok-injective h), ap (λ x. lookup (codes "infile") x.1) (sym (ok-injective h)))
permission_of-Says (scalar nil) vs p kv h = absurd (cc)
permission_of-Says (scalar another) vs p kv h = absurd (cc)
permission_of-Says (table t) vs p kv h = ground (arith, extra_keys-own t kv)

-- The file that the server reads off pairs.
abbrev read_file : List (Text × Text) → Text
unfolding lookup
read_file kv = unwrap_or (lookup (codes "infile") kv) []

read_file-append :
    (kv : List (Text × Text)) (i : Text)
    → read_file (kv ++ (codes "infile", i) ∷ []) ≡ unwrap_or (lookup (codes "infile") kv) i
unfolding lookup
read_file-append [] i = refl
read_file-append ((k, v) ∷ kv) i = ground (arith, read_file-append kv i)

Names-Second :
    (o : Option Text) (vs : List Value) (p i : Text) → Second vs p i → Names o vs p (unwrap_or o i)
Names-Second none vs p i h = h
Names-Second (some own) vs p i h = refl

-- A decision is sound for the values that the hook returned.
abbrev pub Sound : Bool → List Value → Text × List (Text × Text) → Type 0
Sound extended vs (p, kv) =
    Vocabulary extended p
    × Says vs p
    × IsFile vs p (access_from (record { permission = permission_from_str p; kv = kv })).infile

infile_of-second :
    (v : Value) (vs : List Value) (i : Text) → infile_of vs ≡ ok i → second (v ∷ vs) ≡ some i
infile_of-second v [] i h = absurd (cc)
infile_of-second v (scalar (string s) ∷ vs) i h = ap some (ok-injective h)
infile_of-second v (scalar nil ∷ vs) i h = absurd (cc)
infile_of-second v (scalar another ∷ vs) i h = absurd (cc)
infile_of-second v (table t ∷ vs) i h = absurd (cc)

-- The pairs of a decision, and what the server reads off them.
file-Sound :
    (extended : Bool) (v : Value) (vs : List Value) (p i : Text) (kv : List (Text × Text))
    → valid_permission p extended ≡ true
    → Says (v ∷ vs) p
    → lookup (codes "infile") kv ≡ own_file (v ∷ vs)
    → Second (v ∷ vs) p i
    → Sound extended (v ∷ vs) (p, kv ++ (codes "infile", i) ∷ [])
unfolding access_from
file-Sound extended v vs p i kv h says own named =
    let read = read_file-append kv i ∙ ap (λ o. unwrap_or o i) own in
    (
      valid_permission-Vocabulary p extended h,
      says,
      subst (IsFile (v ∷ vs) p) (sym read) (Names-Second (own_file (v ∷ vs)) (v ∷ vs) p i named),
    )

with_infile-Sound :
    (extended : Bool) (v : Value) (vs : List Value) (p : Text) (kv : List (Text × Text))
    (r : Text × List (Text × Text))
    → Says (v ∷ vs) p
    → lookup (codes "infile") kv ≡ own_file (v ∷ vs)
    → with_infile extended vs p kv ≡ ok r
    → Sound extended (v ∷ vs) r
unfolding with_infile
with_infile-Sound extended v vs p kv r says own h =
    elim (Bool-cases (valid_permission p extended)) [
      | inr e ↦ absurd (cc (rw (with_infile, e) at h))
      | inl e ↦ elim (Bool-cases (p =t= codes "deny")) [
        | inl f ↦ subst (Sound extended (v ∷ vs)) (ok-injective (rw (with_infile, e, f) at h)) (
            file-Sound extended v vs p [] kv e says own (inl ((eq_iff p (codes "deny")).0 f, refl)))
        | inr f ↦ elim (Result-cases (infile_of vs)) [
          | inl (x, g) ↦ absurd (cc (rw (with_infile, e, f, g) at h))
          | inr (infile, g) ↦
              subst (Sound extended (v ∷ vs)) (ok-injective (rw (with_infile, e, f, g) at h)) (
                file-Sound extended v vs p infile kv e says own (
                  inr (
                    (λ d. absurd (cc (f, (eq_iff p (codes "deny")).1 d))),
                    infile_of-second v vs infile g,
                  )))
        ]
      ]
    ]

parse-Sound :
    (extended : Bool) (vs : List Value) (r : Text × List (Text × Text))
    → parse_preflight_values extended vs ≡ ok r
    → Sound extended vs r
unfolding parse_preflight_values
parse-Sound extended [] r h = absurd (cc)
parse-Sound extended (v ∷ vs) r h = elim (Result-cases (permission_of v)) [
  | inl (x, e) ↦ absurd (cc (rw (parse_preflight_values, e) at h))
  | inr ((p, kv), e) ↦
      let (says, own) = permission_of-Says v vs p kv e in
      with_infile-Sound extended v vs p kv r says own (rw (parse_preflight_values, e) at h)
]

module _ (date : ℤ → Text) (init : Script (Unit {0})) (hook : Script (List Value)) where
  -- The init script ends well, and the hook after it returns these values.
  abbrev pub Returns : List Value → Type 0
  unfolding buffering
  Returns vs =
      let (r, w) = run date buffering init (new_writer (record { head = none; body = [] })) in
      (r ≡ ok tt) × ((run date buffering hook w).0 ≡ ok vs)

  reply_of-Sound :
      (extended : Bool) (r : Result RuntimeError (List Value)) (w : ResponseWriter Buffer)
      (p : Text) (kv : List (Text × Text))
      → reply_of date extended r w ≡ ok (decision p kv)
      → (vs : List Value) × (r ≡ ok vs) × Sound extended vs (p, kv)
  unfolding reply_of direct_reply
  reply_of-Sound extended (err killed) w p kv h = absurd (cc)
  reply_of-Sound extended (err other) w p kv h = elim (Bool-cases w.status_set) [
    | inl e ↦ absurd (cc (rw (reply_of, e) at h))
    | inr e ↦ absurd (cc (rw (reply_of, e) at h))
  ]
  reply_of-Sound extended (ok vs) w p kv h = elim (Bool-cases w.status_set) [
    | inl e ↦ absurd (cc (rw (reply_of, e) at h))
    | inr e ↦ elim (Result-cases (parse_preflight_values extended vs)) [
      | inl (x, f) ↦ absurd (cc (rw (reply_of, e, f) at h))
      | inr ((q, gs), f) ↦
          let same : (q, gs) ≡ (p, kv) = cc (rw (reply_of, e, f) at h) in
          (vs, refl, subst (Sound extended vs) same (parse-Sound extended vs (q, gs) f))
    ]
  ]

  -- Whatever the init script and the hook do: if a decision comes of them, then the init script ended well and
  -- the hook returned values whose first is the permission, or a table with it as its type; the permission is
  -- one of the four words of every hook, or of the three more of the hook of an image; and the file that the
  -- server reads off the decision is that under a key infile of the table, if it has one, even for a denial,
  -- and otherwise the second value, or empty for a denial.
  pub run_hook-Sound :
      (extended : Bool) (p : Text) (kv : List (Text × Text))
      → run_hook date extended init hook ≡ ok (decision p kv)
      → (vs : List Value) × Returns vs × Sound extended vs (p, kv)
  unfolding run_hook
  run_hook-Sound extended p kv h =
      let t = run date buffering init (new_writer (record { head = none; body = [] })) in
      elim (Result-cases (t.0)) [
        | inl (x, e) ↦ absurd (cc (rw (run_hook, e) at h))
        | inr (u, e) ↦
            let v = run date buffering hook (t.1) in
            let (vs, f, sound) = reply_of-Sound extended (v.0) (v.1) p kv (rw (run_hook, e) at h) in
            (vs, (e, f), sound)
      ]
