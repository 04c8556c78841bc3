-- ===== src/Info/Json.antt =====
-- JSON values: `serde_json::Value`, as far as the shell builds it, with `f64` as a type.
use sipi.Common.{
  ℕ, List, [], ◌∷◌, false, Option, none, some, Text, ◌=t=◌, ◌≡◌, refl, if◌then◌else◌, Bool-cases,
  inl, inr, eq_iff,
}

mutual
  pub data Json (R : Type 0) : Type 0 where
    str : Text → Json R
    num : ℕ → Json R
    real : R → Json R
    arr : Elements R → Json R
    obj : Members R → Json R

  pub data Elements (R : Type 0) : Type 0 where
    no_elements : Elements R
    element : Json R → Elements R → Elements R

  pub data Members (R : Type 0) : Type 0 where
    no_members : Members R
    member : Text → Json R → Members R → Members R

module _ {R : Type 0} where
  -- `Map::insert`: the value under the key is replaced.
  unfoldable pub insert : Members R → Text → Json R → Members R
  insert no_members k v = member k v no_members
  insert (member l w m) k v =
      let rest = insert m k v in if l =t= k then member k v m else member l w rest

  unfoldable pub field : Members R → Text → Option (Json R)
  field no_members k = none
  field (member l w m) k = let rest = field m k in if l =t= k then some w else rest

  pub field-insert_self : (m : Members R) (k : Text) (v : Json R) → field (insert m k v) k ≡ some v
  unfolding insert field
  field-insert_self no_members k v = rw ((eq_iff k k).1 refl) refl
  field-insert_self (member l w m) k v = elim (Bool-cases (l =t= k)) [
    | inl e ↦ rw (insert, e, field, (eq_iff k k).1 refl) refl
    | inr e ↦ rw (insert, e, field, e) (field-insert_self m k v)
  ]

  pub field-insert_ne :
      (m : Members R) (k : Text) (v : Json R) (j : Text)
      → k =t= j ≡ false
      → field (insert m k v) j ≡ field m j
  unfolding insert field
  field-insert_ne no_members k v j h = rw h refl
  field-insert_ne (member l w m) k v j h = elim (Bool-cases (l =t= k)) [
    | inl e ↦ let same : l ≡ k = (eq_iff l k).0 e in rw (insert, e, field, same, h) refl
    | inr e ↦ elim (Bool-cases (l =t= j)) [
      | inl f ↦ rw (insert, e, field, f) refl
      | inr f ↦ rw (insert, e, field, f) (field-insert_ne m k v j h)
    ]
  ]

  -- An insert, if there is a value.
  unfoldable pub put_some : Members R → Text → Option (Json R) → Members R
  unfolding insert
  put_some m k none = m
  put_some m k (some v) = insert m k v

  unfoldable pub array : List (Json R) → Elements R
  array [] = no_elements
  array (v ∷ vs) = element v (array vs)

  abbrev pub as_json : Option Text → Option (Json R)
  as_json none = none
  as_json (some t) = some (str t)
