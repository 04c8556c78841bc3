-- ===== src/Bindings/Cookies.antt =====
-- The cookies that a script sends.
use sipi.Common.{
  List, [], ◌∷◌, Bool, true, false, ◌&&◌, ◌||◌, Option, none, some, Text, codes, ◌=t=◌, eq_iff,
  Result, ok, err, ◌>>=◌, AllOk, after_ok, ◌≡◌, refl, sym, ap, ◌∙◌, arith,
}
use sipi.Scripts.{ResponseCookie, ResponseWriter, add_cookie}
use sipi.Settings.{Value, nil, other, boolean, integer, number, string, table}
use sipi.Bindings.{
  Lua, Reply, done, failed, new_cookie, Stop, stop_failed, stop_raised, coerce_string, set_option,
  set_options, cookie_of, send_cookie, cookie_error, wrong_number, with_cookie,
}

all_ok : {E A : Type 0} (P : A → Type 0) (r : Result E A) → ((a : A) → r ≡ ok a → P a) → AllOk P r
all_ok P (ok a) h = h a refl
all_ok P (err e) h = tt

implied_ok :
    {E A : Type 0} {P Q : A → Type 0} (r : Result E A)
    → ((a : A) → P a → Q a)
    → AllOk P r
    → AllOk Q r
implied_ok (ok a) f h = f a h
implied_ok (err e) f h = tt

module _ {F T : Type 0} (lua : Lua F T) where
  abbrev is_true : Value F T → Bool
  is_true (boolean b) = b
  is_true _ = false

  -- The option turns the flag on.
  abbrev turns_on : Text → Value F T → Bool
  turns_on name v = name =t= codes "http_only" && is_true v

  -- What the option of this name does, and those after it.
  abbrev asked : Option Text → Value F T → Bool → Bool
  asked none v rest = rest
  asked (some name) v rest = turns_on name v || rest

  -- One of the options does.
  abbrev pub http_only_asked : List (Result Text (Value F T × Value F T)) → Bool
  http_only_asked [] = false
  http_only_asked (err t ∷ ps) = http_only_asked ps
  http_only_asked (ok (k, v) ∷ ps) = asked (coerce_string lua k) v (http_only_asked ps)

  abbrev Kept : Bool → ResponseCookie → ResponseCookie → Type 0
  Kept on c d =
      (d.name ≡ c.name)
      × (d.value ≡ c.value)
      × ((c.secure ≡ true) → d.secure ≡ true)
      × (d.http_only ≡ (c.http_only || on))

  or_false : (b : Bool) → b ≡ (b || false)
  or_false true = refl
  or_false false = refl

  or_true : (b : Bool) → true ≡ (b || true)
  or_true true = refl
  or_true false = refl

  set_option-Kept :
      (name : Text) (v : Value F T) (c d : ResponseCookie)
      → set_option lua name v c ≡ ok d
      → Kept (turns_on name v) c d
  unfolding set_option
  set_option-Kept name v c d h = ground (
    arith,
    eq_iff name (codes "path"),
    eq_iff name (codes "domain"),
    eq_iff name (codes "expires"),
    eq_iff name (codes "secure"),
    eq_iff name (codes "http_only"),
    or_false c.http_only,
    or_true c.http_only,
  )

  or_assoc : (a b c : Bool) → ((a || b) || c) ≡ (a || (b || c))
  or_assoc true b c = refl
  or_assoc false b c = refl

  Kept-trans :
      (on1 on2 : Bool) (c d e : ResponseCookie)
      → Kept on1 c d
      → Kept on2 d e
      → Kept (on1 || on2) c e
  Kept-trans on1 on2 c d e (n1, v1, s1, h1) (n2, v2, s2, h2) = (
    n2 ∙ n1,
    v2 ∙ v1,
    (λ h. s2 (s1 h)),
    h2 ∙ ap (λ b. b || on2) h1 ∙ or_assoc c.http_only on1 on2,
  )

  -- The options that are left, after one whose name is this.
  named_Kept :
      (o : Option Text) (v : Value F T) (ps : List (Result Text (Value F T × Value F T)))
      (c : ResponseCookie)
      → ((d : ResponseCookie) → AllOk (Kept (http_only_asked ps) d) (set_options lua ps d))
      → AllOk (Kept (asked o v (http_only_asked ps)) c) (elim o [
        | none ↦ err (stop_failed (cookie_error lua (codes "option name is not a string")))
        | some name ↦ set_option lua name v c >>= λ d. set_options lua ps d
      ])
  named_Kept none v ps c ih = tt
  named_Kept (some name) v ps c ih =
      after_ok (Kept (turns_on name v) c) (Kept (turns_on name v || http_only_asked ps) c)
        (set_option lua name v c) (set_options lua ps)
        (all_ok (Kept (turns_on name v) c) (set_option lua name v c) (set_option-Kept name v c))
        (λ d k.
          implied_ok (set_options lua ps d)
            (λ e. Kept-trans (turns_on name v) (http_only_asked ps) c d e k) (ih d))

  set_options-Kept :
      (ps : List (Result Text (Value F T × Value F T))) (c : ResponseCookie)
      → AllOk (Kept (http_only_asked ps) c) (set_options lua ps c)
  unfolding set_options
  set_options-Kept [] c = (refl, refl, (λ s. s), or_false c.http_only)
  set_options-Kept (err t ∷ ps) c = tt
  set_options-Kept (ok (k, v) ∷ ps) c =
      named_Kept (coerce_string lua k) v ps c (set_options-Kept ps)

  -- The third argument asks for it.
  abbrev pub asks_http_only : List (Value F T) → Bool
  asks_http_only (a ∷ b ∷ table options ∷ []) = http_only_asked (lua.pairs options)
  asks_http_only _ = false

  -- The cookie has the name and the value of the first two arguments, is secure, and is kept from scripts if
  -- asked.
  abbrev pub AsAsked : List (Value F T) → ResponseCookie → Type 0
  AsAsked (a ∷ b ∷ args) c =
      (coerce_string lua a ≡ some c.name)
      × (coerce_string lua b ≡ some c.value)
      × (c.secure ≡ true)
      × (c.http_only ≡ asks_http_only (a ∷ b ∷ args))
  AsAsked _ c = ⊥

  abbrev pub Sent :
      {S : Type 0} → List (Value F T) → ResponseWriter S → Reply × ResponseWriter S → Type 0
  Sent args w (done, v) = (c : ResponseCookie) × AsAsked args c × (v ≡ add_cookie c w)
  Sent args w (_, v) = v ≡ w

  abbrev Named : Value F T → Value F T → ResponseCookie → Type 0
  Named a b c =
      (coerce_string lua a ≡ some c.name)
      × (coerce_string lua b ≡ some c.value)
      × (c.secure ≡ true)
      × (c.http_only ≡ false)

  cookie_of-Named :
      (a b : Value F T) (c : ResponseCookie) → cookie_of lua a b ≡ some c → Named a b c
  unfolding cookie_of new_cookie
  cookie_of-Named a b c h = ground arith

  module _ {S : Type 0} (w : ResponseWriter S) (a b : Value F T) where
    two-Sent :
        (o : Option ResponseCookie)
        → ((c : ResponseCookie) → o ≡ some c → Named a b c)
        → Sent
            (a ∷ b ∷ [])
            w
            (elim o [ none ↦ (failed (wrong_number lua), w) | some c ↦ with_cookie lua (ok c) w ])
    two-Sent none f = refl
    two-Sent (some c) f = (c, f c refl, refl)

    with_options-Sent :
        (options : T) (c : ResponseCookie) (r : Result Stop ResponseCookie)
        → Named a b c
        → AllOk (Kept (http_only_asked (lua.pairs options)) c) r
        → Sent (a ∷ b ∷ table options ∷ []) w (with_cookie lua r w)
    with_options-Sent options c (ok d) (n, v, s, h) (n1, v1, s1, h1) = (
      d,
      (
        n ∙ ap some (sym n1),
        v ∙ ap some (sym v1),
        s1 s,
        h1 ∙ ap (λ x. x || http_only_asked (lua.pairs options)) h,
      ),
      refl,
    )
    with_options-Sent options c (err (stop_failed t)) named k = refl
    with_options-Sent options c (err (stop_raised t)) named k = refl

    refused-Sent :
        (o : Option ResponseCookie) (args : List (Value F T)) (none_error some_error : Text)
        → Sent args w (elim o [ none ↦ (failed none_error, w) | some c ↦ (failed some_error, w) ])
    refused-Sent none args none_error some_error = refl
    refused-Sent (some c) args none_error some_error = refl

    no_table-Sent :
        (third : Value F T)
        → Sent (a ∷ b ∷ third ∷ []) w (elim (cookie_of lua a b) [
          | none ↦ (failed (wrong_number lua), w)
          | some c ↦ (failed (cookie_error lua (codes "options is not a lua-table")), w)
        ])
    no_table-Sent third =
        refused-Sent (cookie_of lua a b) (a ∷ b ∷ third ∷ []) (wrong_number lua)
          (cookie_error lua (codes "options is not a lua-table"))

    three-Sent :
        (o : Option ResponseCookie) (options : T)
        → ((c : ResponseCookie) → o ≡ some c → Named a b c)
        → Sent (a ∷ b ∷ table options ∷ []) w (elim o [
          | none ↦ (failed (wrong_number lua), w)
          | some c ↦ with_cookie lua (set_options lua (lua.pairs options) c) w
        ])
    three-Sent none options f = refl
    three-Sent (some c) options f =
        with_options-Sent options c (set_options lua (lua.pairs options) c) (f c refl)
          (set_options-Kept (lua.pairs options) c)

  -- Whatever the arguments, either the script is told that it is done and the writer has one more cookie, which
  -- has the name and the value of the first two arguments, is secure, and is kept from scripts exactly if the
  -- options ask for it; or the script is told otherwise and the writer is as before.
  pub send_cookie-Sent :
      {S : Type 0} (args : List (Value F T)) (w : ResponseWriter S)
      → Sent args w (send_cookie lua args w)
  unfolding send_cookie
  send_cookie-Sent (a ∷ b ∷ []) w = two-Sent w a b (cookie_of lua a b) (cookie_of-Named a b)
  send_cookie-Sent (a ∷ b ∷ table options ∷ []) w =
      three-Sent w a b (cookie_of lua a b) options (cookie_of-Named a b)
  send_cookie-Sent (a ∷ b ∷ nil ∷ []) w = no_table-Sent w a b nil
  send_cookie-Sent (a ∷ b ∷ other ∷ []) w = no_table-Sent w a b other
  send_cookie-Sent (a ∷ b ∷ boolean x ∷ []) w = no_table-Sent w a b (boolean x)
  send_cookie-Sent (a ∷ b ∷ integer i ∷ []) w = no_table-Sent w a b (integer i)
  send_cookie-Sent (a ∷ b ∷ number x ∷ []) w = no_table-Sent w a b (number x)
  send_cookie-Sent (a ∷ b ∷ string s ∷ []) w = no_table-Sent w a b (string s)
  send_cookie-Sent [] w = refl
  send_cookie-Sent (a ∷ []) w = refl
  send_cookie-Sent (a ∷ b ∷ c ∷ d ∷ args) w = refl
