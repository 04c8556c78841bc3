-- ===== src/Bindings/Json/Sound.antt =====
-- What the loop over a table returns is the JSON of the table.
use sipi.Common.{
  Option, none, some, Text, ok, ◌>>=◌, unwrap_or, ok-injective, ◌≡◌, refl, sym, ap, ◌∙◌, subst,
}
use sipi.Bindings.Json.{
  Tree, nil, other, boolean, integer, number, string, table, Pairs, no_pairs, broken, pair, Json,
  array, object, Items, no_items, item, Members, no_members, member, Numbers, push, insert,
  converted, json_pairs,
}
use sipi.Bindings.Json.Renders.{
  append, append_members, append-push, append_members-insert, append_none, append_no_members,
  bind_ok, IsNumber, Renders, Elements, Entries, IsJson,
}

module _ {F N : Type 0} (numbers : Numbers F N) where
  table-Renders :
      (ps : Pairs F) (r : Option (Json N)) (w : Json N)
      → IsJson numbers ps r
      → unwrap_or r (object no_members) ≡ w
      → Renders numbers (table ps) w
  unfolding Renders
  table-Renders no_pairs r w h e = sym e ∙ ap (λ o. unwrap_or o (object no_members)) h
  table-Renders (broken t) none w h e = h
  table-Renders (broken t) (some j) w h e = h
  table-Renders (pair k v ps) none w h e = absurd h
  table-Renders (pair k v ps) (some j) w h e = subst (Renders numbers (table (pair k v ps))) e h

  -- What the loop does with the pairs behind one with a number as its key, and behind one with a text.
  abbrev LaterItems : Pairs F → Items N → Option (Json N) → Type 0
  LaterItems ps a r = (ws : Items N) × (r ≡ some (array (append a ws))) × Elements numbers ps ws

  abbrev LaterMembers : Pairs F → Members N → Option (Json N) → Type 0
  LaterMembers ps o r =
      (ms : Members N) × (r ≡ some (object (append_members o ms))) × Entries numbers ps ms

  next-Elements :
      (k v : Tree F) (ps : Pairs F) (a : Items N) (r : Option (Json N))
      → IsNumber numbers k
      → ((w : Json N) → converted numbers v ≡ ok w → Renders numbers v w)
      → ((b : Items N) → json_pairs numbers ps none (some b) ≡ ok r → LaterItems ps b r)
      → (converted numbers v >>= λ w. json_pairs numbers ps none (some (push a w))) ≡ ok r
      → LaterItems (pair k v ps) a r
  unfolding Renders
  next-Elements k v ps a r n value later h =
      let (w, e, q) =
        bind_ok (converted numbers v) (λ w. json_pairs numbers ps none (some (push a w))) r h in
      let (ws, f, g) = later (push a w) q in
      (item w ws, f ∙ ap (λ x. some (array x)) (append-push a ws w), (n, value w e, g))

  next-Entries :
      (k : Text) (v : Tree F) (ps : Pairs F) (o : Members N) (r : Option (Json N))
      → ((w : Json N) → converted numbers v ≡ ok w → Renders numbers v w)
      → ((p : Members N) → json_pairs numbers ps (some p) none ≡ ok r → LaterMembers ps p r)
      → (converted numbers v >>= λ w. json_pairs numbers ps (some (insert o k w)) none) ≡ ok r
      → LaterMembers (pair (string k) v ps) o r
  unfolding Renders
  next-Entries k v ps o r value later h =
      let (w, e, q) =
        bind_ok (converted numbers v) (λ w. json_pairs numbers ps (some (insert o k w)) none) r h in
      let (ms, f, g) = later (insert o k w) q in
      (
        member k w ms,
        f ∙ ap (λ x. some (object x)) (append_members-insert o ms k w),
        (refl, value w e, g),
      )

  mutual
    unfolding Renders converted

    converted-Renders : (v : Tree F) (w : Json N) → converted numbers v ≡ ok w → Renders numbers v w
    converted-Renders nil w h = absurd (cc)
    converted-Renders other w h = absurd (cc)
    converted-Renders (boolean b) w h = sym (ok-injective h)
    converted-Renders (integer i) w h = sym (ok-injective h)
    converted-Renders (number n) w h = sym (ok-injective h)
    converted-Renders (string s) w h = sym (ok-injective h)
    converted-Renders (table ps) w h =
        let (r, e, q) =
          bind_ok (json_pairs numbers ps none none) (λ r. ok (unwrap_or r (object no_members))) w
            h in
        table-Renders ps r w (first-IsJson ps r e) (ok-injective q)

    pub first-IsJson :
        (ps : Pairs F) (r : Option (Json N))
        → json_pairs numbers ps none none ≡ ok r
        → IsJson numbers ps r
    first-IsJson no_pairs r h = sym (ok-injective h)
    first-IsJson (broken t) r h = absurd (cc)
    first-IsJson (pair nil v ps) r h = absurd (cc)
    first-IsJson (pair other v ps) r h = absurd (cc)
    first-IsJson (pair (boolean b) v ps) r h = absurd (cc)
    first-IsJson (pair (table t) v ps) r h = absurd (cc)
    first-IsJson (pair (string k) v ps) r h =
        let (ms, e, f) =
          next-Entries k v ps no_members r (converted-Renders v) (λ p. later-Entries ps p r) h in
        subst (IsJson numbers (pair (string k) v ps)) (sym e) f
    first-IsJson (pair (integer k) v ps) r h =
        let (ws, e, f) =
          next-Elements (integer k) v ps no_items r tt (converted-Renders v)
            (λ b. later-Elements ps b r) h in
        subst (IsJson numbers (pair (integer k) v ps)) (sym e) f
    first-IsJson (pair (number k) v ps) r h =
        let (ws, e, f) =
          next-Elements (number k) v ps no_items r tt (converted-Renders v)
            (λ b. later-Elements ps b r) h in
        subst (IsJson numbers (pair (number k) v ps)) (sym e) f

    later-Elements :
        (ps : Pairs F) (a : Items N) (r : Option (Json N))
        → json_pairs numbers ps none (some a) ≡ ok r
        → LaterItems ps a r
    later-Elements no_pairs a r h =
        (no_items, sym (ok-injective h) ∙ ap (λ x. some (array x)) (sym (append_none a)), tt)
    later-Elements (broken t) a r h = absurd (cc)
    later-Elements (pair nil v ps) a r h = absurd (cc)
    later-Elements (pair other v ps) a r h = absurd (cc)
    later-Elements (pair (boolean b) v ps) a r h = absurd (cc)
    later-Elements (pair (table t) v ps) a r h = absurd (cc)
    later-Elements (pair (string k) v ps) a r h = absurd (cc)
    later-Elements (pair (integer k) v ps) a r h =
        next-Elements (integer k) v ps a r tt (converted-Renders v) (λ b. later-Elements ps b r) h
    later-Elements (pair (number k) v ps) a r h =
        next-Elements (number k) v ps a r tt (converted-Renders v) (λ b. later-Elements ps b r) h

    later-Entries :
        (ps : Pairs F) (o : Members N) (r : Option (Json N))
        → json_pairs numbers ps (some o) none ≡ ok r
        → LaterMembers ps o r
    later-Entries no_pairs o r h = (
      no_members,
      sym (ok-injective h) ∙ ap (λ x. some (object x)) (sym (append_no_members o)),
      tt,
    )
    later-Entries (broken t) o r h = absurd (cc)
    later-Entries (pair nil v ps) o r h = absurd (cc)
    later-Entries (pair other v ps) o r h = absurd (cc)
    later-Entries (pair (boolean b) v ps) o r h = absurd (cc)
    later-Entries (pair (table t) v ps) o r h = absurd (cc)
    later-Entries (pair (integer k) v ps) o r h = absurd (cc)
    later-Entries (pair (number k) v ps) o r h = absurd (cc)
    later-Entries (pair (string k) v ps) o r h =
        next-Entries k v ps o r (converted-Renders v) (λ p. later-Entries ps p r) h
