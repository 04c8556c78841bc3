-- ===== src/Bindings/Json/Renders.antt =====
-- Which JSON a Lua table is, as a relation, and that the loop decides it.
use sipi.Common.{Option, none, some, Text, Result, ok, err, ◌>>=◌, ◌≡◌, refl, ap}
use sipi.Bindings.Json.{
  Tree, nil, other, boolean, integer, number, string, table, Pairs, no_pairs, broken, pair, Json,
  bool, num, str, array, object, Items, no_items, item, Members, no_members, member, Numbers, push,
  insert, of_number,
}

abbrev pub append : {N : Type 0} → Items N → Items N → Items N
append no_items ws = ws
append (item v vs) ws = item v (append vs ws)

abbrev pub append_members : {N : Type 0} → Members N → Members N → Members N
append_members no_members ns = ns
append_members (member k v ms) ns = member k v (append_members ms ns)

pub append-push :
    {N : Type 0} (a ws : Items N) (w : Json N) → append (push a w) ws ≡ append a (item w ws)
unfolding push
append-push no_items ws w = refl
append-push (item v vs) ws w = ap (item v) (append-push vs ws w)

pub append_members-insert :
    {N : Type 0} (o ms : Members N) (k : Text) (w : Json N)
    → append_members (insert o k w) ms ≡ append_members o (member k w ms)
unfolding insert
append_members-insert no_members ms k w = refl
append_members-insert (member l v ns) ms k w = ap (member l v) (append_members-insert ns ms k w)

pub append_none : {N : Type 0} (a : Items N) → append a no_items ≡ a
append_none no_items = refl
append_none (item v vs) = ap (item v) (append_none vs)

pub append_no_members : {N : Type 0} (o : Members N) → append_members o no_members ≡ o
append_no_members no_members = refl
append_no_members (member k v ms) = ap (member k v) (append_no_members ms)

pub bind_ok :
    {E A B : Type 0} (r : Result E A) (f : A → Result E B) (b : B)
    → (r >>= f) ≡ ok b
    → (a : A) × (r ≡ ok a) × (f a ≡ ok b)
bind_ok (ok a) f b h = (a, refl, h)
bind_ok (err e) f b h = absurd (cc)

module _ {F N : Type 0} (numbers : Numbers F N) where
  abbrev pub IsNumber : Tree F → Type 0
  IsNumber (integer i) = Unit
  IsNumber (number n) = Unit
  IsNumber _ = ⊥

  unfoldable mutual
    -- The value is this JSON.
    pub Renders : Tree F → Json N → Type 0
    Renders nil j = ⊥
    Renders other j = ⊥
    Renders (boolean b) j = j ≡ bool b
    Renders (integer i) j = j ≡ num (numbers.of_i64 i)
    Renders (number n) j = j ≡ of_number numbers n
    Renders (string s) j = j ≡ str s
    Renders (table no_pairs) j = j ≡ object no_members
    Renders (table (broken t)) j = ⊥
    Renders (table (pair k v ps)) (array ws) = Elements (pair k v ps) ws
    Renders (table (pair k v ps)) (object ms) = Entries (pair k v ps) ms
    Renders (table (pair k v ps)) _ = ⊥

    -- The keys are numbers, and the values are these in their order.
    pub Elements : Pairs F → Items N → Type 0
    Elements no_pairs no_items = Unit
    Elements (pair k v ps) (item w ws) = IsNumber k × Renders v w × Elements ps ws
    Elements _ _ = ⊥

    -- The keys are these texts, and the values these.
    pub Entries : Pairs F → Members N → Type 0
    Entries no_pairs no_members = Unit
    Entries (pair k v ps) (member l w ms) = (k ≡ string l) × Renders v w × Entries ps ms
    Entries _ _ = ⊥

  abbrev pub IsJson : Pairs F → Option (Json N) → Type 0
  IsJson no_pairs r = r ≡ none
  IsJson ps none = ⊥
  IsJson ps (some j) = Renders (table ps) j
