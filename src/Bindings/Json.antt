-- ===== src/Bindings/Json.antt =====
-- The conversions between Lua tables and JSON. A table is its pairs in the order that Lua visits them, or that
-- they are set in; an array or an object of JSON is its elements or members in the order of the calls that
-- push or insert them. The numbers of JSON, its reader and its printer are parameters. Tables are finite: the
-- source follows a table that holds itself without end. An insertion takes the key to be new, as the keys of a
-- table differ; the source replaces the value of a key that two keys of invalid UTF-8 are both read as.
pub mod Renders
pub mod Sound
pub mod Exact
mod Tests
use sipi.Common.{
  ℕ, ◌+◌, List, [], ◌∷◌, ◌++◌, Bool, true, false, Option, none, some, ℤ, pos, negsuc, Text, codes,
  if◌then◌else◌, Result, ok, err, ◌>>=◌, unwrap_or,
}
use sipi.Settings.{show_integer}
use sipi.Bindings.{Reply, done, text, failed}

mutual
  pub data Tree (F : Type 0) : Type 0 where
    nil other : Tree F
    boolean : Bool → Tree F
    integer : ℤ → Tree F
    number : F → Tree F
    string : Text → Tree F
    table : Pairs F → Tree F

  -- The visit of the pairs can fail.
  pub data Pairs (F : Type 0) : Type 0 where
    no_pairs : Pairs F
    broken : Text → Pairs F
    pair : Tree F → Tree F → Pairs F → Pairs F

mutual
  pub data Json (N : Type 0) : Type 0 where
    null : Json N
    bool : Bool → Json N
    num : N → Json N
    str : Text → Json N
    array : Items N → Json N
    object : Members N → Json N

  pub data Items (N : Type 0) : Type 0 where
    no_items : Items N
    item : Json N → Items N → Items N

  pub data Members (N : Type 0) : Type 0 where
    no_members : Members N
    member : Text → Json N → Members N → Members N

-- The floats of Lua and the numbers of JSON.
pub record Numbers (F N : Type 0) : Type 0 where
  pub is_whole : F → Bool
  pub to_i64 : F → ℤ
  pub of_i64 : ℤ → N
  -- No number for what is not finite.
  pub of_f64 : F → Option N
  pub as_i64 : N → Option ℤ
  pub as_f64 : N → Option F
  pub nan : F
  pub show_number : F → Text

unfoldable pub push : {N : Type 0} → Items N → Json N → Items N
push no_items w = item w no_items
push (item v vs) w = item v (push vs w)

unfoldable pub insert : {N : Type 0} → Members N → Text → Json N → Members N
insert no_members k w = member k w no_members
insert (member l v ms) k w = member l v (insert ms k w)

abbrev pub cannot_mix : Text
cannot_mix = codes "'server.table_to_json(table)': Cannot mix int and strings as key"

abbrev pub cannot_convert : Text
cannot_convert = codes "'server.table_to_json(table)': Cannot convert key to JSON object field"

module _ {F N : Type 0} (numbers : Numbers F N) where
  abbrev pub of_number : F → Json N
  of_number n =
      if numbers.is_whole n
      then num (numbers.of_i64 (numbers.to_i64 n))
      else elim (numbers.of_f64 n) [ some m ↦ num m | none ↦ null ]

  -- What the loop has gathered.
  abbrev pub gathered : Option (Members N) → Option (Items N) → Option (Json N)
  gathered (some o) a = some (object o)
  gathered none (some a) = some (array a)
  gathered none none = none

  unfoldable mutual
    unfolding push insert

    -- The value of a pair.
    pub converted : Tree F → Result Text (Json N)
    converted (integer i) = ok (num (numbers.of_i64 i))
    converted (number n) = ok (of_number n)
    converted (string s) = ok (str s)
    converted (boolean b) = ok (bool b)
    converted (table ps) = json_pairs ps none none >>= λ r. ok (unwrap_or r (object no_members))
    converted nil = err (codes "server.table_to_json(table): datatype inconsistency")
    converted other = err (codes "server.table_to_json(table): datatype inconsistency")

    -- The loop over the pairs.
    pub json_pairs : Pairs F → Option (Members N) → Option (Items N) → Result Text (Option (Json N))
    json_pairs no_pairs o a = ok (gathered o a)
    json_pairs (broken t) o a = err t
    json_pairs (pair (string k) v ps) o (some a) = err cannot_mix
    json_pairs (pair (string k) v ps) o none =
        converted v >>= λ w. json_pairs ps (some (insert (unwrap_or o no_members) k w)) none
    json_pairs (pair (integer k) v ps) (some o) a = err cannot_mix
    json_pairs (pair (integer k) v ps) none a =
        converted v >>= λ w. json_pairs ps none (some (push (unwrap_or a no_items) w))
    json_pairs (pair (number k) v ps) (some o) a = err cannot_mix
    json_pairs (pair (number k) v ps) none a =
        converted v >>= λ w. json_pairs ps none (some (push (unwrap_or a no_items) w))
    json_pairs (pair nil v ps) o a = err cannot_convert
    json_pairs (pair other v ps) o a = err cannot_convert
    json_pairs (pair (boolean b) v ps) o a = err cannot_convert
    json_pairs (pair (table t) v ps) o a = err cannot_convert

  unfoldable pub lua_to_json : Pairs F → Result Text (Option (Json N))
  unfolding json_pairs
  lua_to_json ps = json_pairs ps none none

  unfoldable pub table_to_json : (Json N → Text) → List (Tree F) → Reply
  unfolding lua_to_json
  table_to_json dumps [] = failed (codes "'server.table_to_json(table)': table parameter missing")
  table_to_json dumps (table ps ∷ args) = elim (lua_to_json ps) [
    | err msg ↦ failed msg
    | ok none ↦ done
    | ok (some value) ↦ text (dumps value)
  ]
  table_to_json dumps (_ ∷ args) =
      failed (codes "'server.table_to_json(table)': table is not a lua-table")

  -- A pair that is set: nil is left out.
  abbrev set_pair : Tree F → Tree F → Pairs F → Pairs F
  set_pair k nil ps = ps
  set_pair k v ps = pair k v ps

  unfoldable mutual
    pub json_to_lua : Json N → Tree F
    json_to_lua null = nil
    json_to_lua (bool b) = boolean b
    json_to_lua (num n) = elim (numbers.as_i64 n) [
      | some i ↦ integer i
      | none ↦ number (unwrap_or (numbers.as_f64 n) numbers.nan)
    ]
    json_to_lua (str s) = string s
    json_to_lua (array items) = table (lua_items 0 items)
    json_to_lua (object map) = table (lua_members map)

    -- The keys count from 0.
    pub lua_items : ℕ → Items N → Pairs F
    lua_items i no_items = no_pairs
    lua_items i (item v vs) = set_pair (integer (pos i)) (json_to_lua v) (lua_items (i + 1) vs)

    pub lua_members : Members N → Pairs F
    lua_members no_members = no_pairs
    lua_members (member k v ms) = set_pair (string k) (json_to_lua v) (lua_members ms)

  abbrev pub text_of : Tree F → Option Text
  text_of (string s) = some s
  text_of (integer i) = some (show_integer i)
  text_of (number n) = some (numbers.show_number n)
  text_of _ = none

  abbrev of_parsed : Json N → Result Text (Tree F)
  of_parsed (array items) = ok (json_to_lua (array items))
  of_parsed (object map) = ok (json_to_lua (object map))
  of_parsed _ = err (codes "'server.json_to_table(jsonstr)': Not a valid json string")

  unfoldable pub json_to_table :
      (Text → Result Text (Json N)) → List (Tree F) → Result Text (Tree F)
  unfolding json_to_lua show_integer
  json_to_table from_str [] =
      err (codes "'server.json_to_table(jsonstr)': jsonstr parameter missing")
  json_to_table from_str (first ∷ args) = elim (text_of first) [
    | none ↦ err (codes "'server.json_to_table(jsonstr)': jsonstr is not a string")
    | some s ↦ elim (from_str s) [
      | err e ↦ err (codes "'server.json_to_table(jsonstr)': Error parsing JSON: " ++ e)
      | ok parsed ↦ of_parsed parsed
    ]
  ]
