-- ===== src/Bindings/Json/Exact.antt =====
-- The JSON that a table is, is what the loop over it returns, and no other.
use sipi.Common.{
  [], Option, none, some, Text, Result, ok, ◌>>=◌, unwrap_or, arith, ◌≡◌, ◌↔◌, sym, ap, ◌∙◌,
}
use sipi.Bindings.Json.{
  Tree, nil, other, boolean, integer, number, string, table, Pairs, no_pairs, broken, pair, Json,
  array, object, Items, no_items, item, Members, no_members, member, Numbers, push, insert,
  converted, json_pairs, lua_to_json,
}
use sipi.Bindings.Json.Renders.{
  append, append_members, append-push, append_members-insert, append_none, append_no_members,
  Renders, Elements, Entries, IsJson,
}
use sipi.Bindings.Json.Sound.{first-IsJson}

and_ok :
    {E A B : Type 0} (r : Result E A) (f : A → Result E B) (a : A) (b : Result E B)
    → r ≡ ok a
    → f a ≡ b
    → (r >>= f) ≡ b
and_ok r f a b h e = ap (λ x. x >>= f) h ∙ e

abbrev string_of : {F : Type 0} → Tree F → Text
string_of (string s) = s
string_of _ = []

module _ {F N : Type 0} (numbers : Numbers F N) where
  add_element :
      (v : Tree F) (ps : Pairs F) (a ws : Items N) (w : Json N)
      → converted numbers v ≡ ok w
      → json_pairs numbers ps none (some (push a w)) ≡ ok (some (array (append (push a w) ws)))
      → (converted numbers v >>= λ x. json_pairs numbers ps none (some (push a x)))
        ≡ ok (some (array (append a (item w ws))))
  add_element v ps a ws w h e =
      and_ok (converted numbers v) (λ x. json_pairs numbers ps none (some (push a x))) w
        (ok (some (array (append a (item w ws))))) h
        (e ∙ ap (λ x. ok (some (array x))) (append-push a ws w))

  add_entry :
      (k l : Text) (v : Tree F) (ps : Pairs F) (o ms : Members N) (w : Json N)
      → ◌≡◌ {A = Tree F} (string k) (string l)
      → converted numbers v ≡ ok w
      → ((p : Members N)
          → json_pairs numbers ps (some p) none ≡ ok (some (object (append_members p ms))))
      → (converted numbers v >>= λ x. json_pairs numbers ps (some (insert o k x)) none)
        ≡ ok (some (object (append_members o (member l w ms))))
  add_entry k l v ps o ms w q h later =
      and_ok (converted numbers v) (λ x. json_pairs numbers ps (some (insert o k x)) none) w
        (ok (some (object (append_members o (member l w ms))))) h
        (later (insert o k w)
          ∙ ap (λ x. ok (some (object x))) (append_members-insert o ms k w)
          ∙ ap (λ x. ok (some (object (append_members o (member x w ms))))) (ap string_of q))

  mutual
    unfolding Renders converted

    Renders-converted : (v : Tree F) (w : Json N) → Renders numbers v w → converted numbers v ≡ ok w
    Renders-converted nil w h = absurd h
    Renders-converted other w h = absurd h
    Renders-converted (boolean b) w h = ap ok (sym h)
    Renders-converted (integer i) w h = ap ok (sym h)
    Renders-converted (number n) w h = ap ok (sym h)
    Renders-converted (string s) w h = ap ok (sym h)
    Renders-converted (table no_pairs) w h = ap ok (sym h)
    Renders-converted (table (broken t)) w h = absurd h
    Renders-converted (table (pair k v ps)) w h =
        ap (λ x. x >>= λ r. ok (unwrap_or r (object no_members)))
          (IsJson-json_pairs (pair k v ps) (some w) h)

    IsJson-json_pairs :
        (ps : Pairs F) (r : Option (Json N))
        → IsJson numbers ps r
        → json_pairs numbers ps none none ≡ ok r
    IsJson-json_pairs no_pairs r h = ap ok (sym h)
    IsJson-json_pairs (pair (integer k) v ps) (some (array (item w ws))) (n, h, hs) =
        add_element v ps no_items ws w (Renders-converted v w h)
          (Elements-json_pairs ps (item w no_items) ws hs)
    IsJson-json_pairs (pair (number k) v ps) (some (array (item w ws))) (n, h, hs) =
        add_element v ps no_items ws w (Renders-converted v w h)
          (Elements-json_pairs ps (item w no_items) ws hs)
    IsJson-json_pairs (pair (string k) v ps) (some (object (member l w ms))) (q, h, hs) =
        add_entry k l v ps no_members ms w q (Renders-converted v w h)
          (λ p. Entries-json_pairs ps p ms hs)
    IsJson-json_pairs ps r h = ground arith

    Elements-json_pairs :
        (ps : Pairs F) (a ws : Items N)
        → Elements numbers ps ws
        → json_pairs numbers ps none (some a) ≡ ok (some (array (append a ws)))
    Elements-json_pairs no_pairs a no_items h = ap (λ x. ok (some (array x))) (sym (append_none a))
    Elements-json_pairs (pair (integer k) v ps) a (item w ws) (n, h, hs) =
        add_element v ps a ws w (Renders-converted v w h) (Elements-json_pairs ps (push a w) ws hs)
    Elements-json_pairs (pair (number k) v ps) a (item w ws) (n, h, hs) =
        add_element v ps a ws w (Renders-converted v w h) (Elements-json_pairs ps (push a w) ws hs)
    Elements-json_pairs ps a ws h = ground arith

    Entries-json_pairs :
        (ps : Pairs F) (o ms : Members N)
        → Entries numbers ps ms
        → json_pairs numbers ps (some o) none ≡ ok (some (object (append_members o ms)))
    Entries-json_pairs no_pairs o no_members h =
        ap (λ x. ok (some (object x))) (sym (append_no_members o))
    Entries-json_pairs (pair (string k) v ps) o (member l w ms) (q, h, hs) =
        add_entry k l v ps o ms w q (Renders-converted v w h) (λ p. Entries-json_pairs ps p ms hs)
    Entries-json_pairs ps o ms h = ground arith

  -- A table converts to JSON, or to nothing, exactly if it is it: no pairs are nothing, or an empty object
  -- within a value; pairs whose keys all are numbers are an array of their values in order; pairs whose keys all
  -- are texts are an object with a member for each; the values are JSON in the same way, and nothing else
  -- converts.
  pub lua_to_json-IsJson :
      (ps : Pairs F) (r : Option (Json N)) → (lua_to_json numbers ps ≡ ok r) ↔ IsJson numbers ps r
  unfolding lua_to_json
  lua_to_json-IsJson ps r = (first-IsJson numbers ps r, IsJson-json_pairs ps r)
