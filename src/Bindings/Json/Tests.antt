-- ===== src/Bindings/Json/Tests.antt =====
-- A list of a text and an object, and a table that mixes its keys.
use sipi.Common.{[], true, false, none, some, ℤ, pos, codes, ◌≡◌, refl, ok, err}
use sipi.Bindings.Json.{
  boolean, integer, string, table, Pairs, no_pairs, pair, Json, bool, str, array, object, no_items,
  item, no_members, member, Numbers, lua_to_json, json_to_lua, cannot_mix,
}
use sipi.Bindings.Json.Renders.{IsJson}
use sipi.Bindings.Json.Exact.{lua_to_json-IsJson}

abbrev sample : Numbers (Unit {0}) ℤ
sample = record {
  is_whole = λ f. false;
  to_i64 = λ f. pos 0;
  of_i64 = λ i. i;
  of_f64 = λ f. none;
  as_i64 = some;
  as_f64 = λ i. none;
  nan = tt;
  show_number = λ f. [];
}

abbrev inner : Pairs (Unit {0})
inner = pair (string (codes "x")) (boolean true) no_pairs

abbrev two_values : Pairs (Unit {0})
two_values =
    pair (integer (pos 1)) (string (codes "a")) (pair (integer (pos 2)) (table inner) no_pairs)

abbrev json : Json ℤ
json =
    array
      (item (str (codes "a")) (item (object (member (codes "x") (bool true) no_members)) no_items))

listed_test : lua_to_json sample two_values ≡ ok (some json)
unfolding lua_to_json
listed_test = refl

mixed_test :
    lua_to_json sample (pair (string (codes "x")) (boolean true) two_values) ≡ err cannot_mix
unfolding lua_to_json
mixed_test = refl

-- The keys of a table that is read count from 0.
read_test :
    json_to_lua sample json
    ≡ table (
        pair (integer (pos 0)) (string (codes "a")) (pair (integer (pos 1)) (table inner) no_pairs))
unfolding json_to_lua
read_test = refl

lua_to_json-IsJson_example : IsJson sample two_values (some json)
lua_to_json-IsJson_example = (lua_to_json-IsJson sample two_values (some json)).0 listed_test
