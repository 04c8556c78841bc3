-- ===== src/Common/Results.antt =====
-- `Result`, and the `?` of Rust on `Option` and on `Result`, as the bind of a `do` block.
use mathlib.Core.Path.{◌≡◌, refl}
use mathlib.Core.Logic.{◌⊎◌, inl, inr}
use mathlib.Core.Bool.{Bool, false}
use mathlib.Core.Option.{Option, none, some}

pub data Result {ℓ κ} (E : Type ℓ) (A : Type κ) : Type (ℓ ⊔ κ) where
  ok : A → Result E A
  err : E → Result E A

infixl 5 ◌>>=◌
abbrev pub ◌>>=◌ {ℓ κ μ} :
    {E : Type ℓ} {A : Type κ} {B : Type μ} → Result E A → (A → Result E B) → Result E B
ok a >>= f = f a
err e >>= f = err e

-- `o.ok_or(e)`.
abbrev pub ok_or {ℓ κ} : {E : Type ℓ} {A : Type κ} → Option A → E → Result E A
ok_or none e = err e
ok_or (some a) e = ok a

-- `o?` in a function that returns an `Option`.
abbrev pub and_then {ℓ κ} : {A : Type ℓ} {B : Type κ} → Option A → (A → Option B) → Option B
and_then none f = none
and_then (some a) f = f a

-- `o.unwrap_or(a)`.
abbrev pub unwrap_or {ℓ} : {A : Type ℓ} → Option A → A → A
unwrap_or none a = a
unwrap_or (some b) a = b

-- `o.is_some_and(p)`.
abbrev pub is_some_and {ℓ} : {A : Type ℓ} → Option A → (A → Bool) → Bool
is_some_and none p = false
is_some_and (some a) p = p a

pub Result-cases {ℓ κ} :
    {E : Type ℓ} {A : Type κ} (r : Result E A) → ((e : E) × (r ≡ err e)) ⊎ ((a : A) × (r ≡ ok a))
Result-cases (ok a) = inr (a, refl)
Result-cases (err e) = inl (e, refl)

pub ok-injective {ℓ κ} :
    {E : Type ℓ} {A : Type κ} {a b : A} → ◌≡◌ {A = Result E A} (ok a) (ok b) → a ≡ b
ok-injective h = cc

-- What the result holds, if there is one, has the property.
abbrev pub AllOk : {E A : Type 0} → (A → Type 0) → Result E A → Type 0
AllOk P (ok a) = P a
AllOk P (err e) = Unit

pub after_ok :
    {E A B : Type 0} (P : A → Type 0) (Q : B → Type 0) (r : Result E A) (next : A → Result E B)
    → AllOk P r
    → ((a : A) → P a → AllOk Q (next a))
    → AllOk Q (r >>= next)
after_ok P Q (ok a) next h f = f a h
after_ok P Q (err e) next h f = tt

pub any_ok : {E A : Type 0} (r : Result E A) → AllOk (λ a. Unit {0}) r
any_ok (ok a) = tt
any_ok (err e) = tt
