-- ===== src/Settings.antt =====
-- The reading of a Lua configuration file: `read_config` and its helpers in src/scripting/rust/entry.rs.
-- What the Lua virtual machine holds once the file has run is a parameter.
pub mod Reader
pub mod Usable
mod Tests
use sipi.Common.{
  ℕ, suc, ◌+◌, ◌-◌, ◌*◌, ℤ, pos, negsuc, List, [], ◌∷◌, ◌++◌, Bool, true, false, not, Option, none,
  some, Text, codes, is_empty, length, take, drop, ◌=t=◌, ◌==◌, ◌||◌, if◌then◌else◌, Result, ok,
  err, ◌>>=◌, ok_or, and_then, parse_i64, checked_mul, trim,
}
use sipi.Config.Lua.{LuaConfigFile, LuaScalingQuality}
use sipi.Ranges.{decimal}
use sipi.Routing.{Global, RoutesError, read_routes}

-- A Lua value, with floats `F` and tables `T`.
pub data Value (F T : Type 0) : Type 0 where
  nil other : Value F T
  boolean : Bool → Value F T
  integer : ℤ → Value F T
  number : F → Value F T
  string : Text → Value F T
  table : T → Value F T

pub data Kind : Type 0 where
  a_string an_integer a_boolean a_number : Kind

-- The errors, with what their texts tell: the kind, the section and the key.
pub data ConfigFailure : Type 0 where
  lua_error : Text → ConfigFailure
  expected : Kind → Text → Text → ConfigFailure
  no_table : Text → Text → ConfigFailure
  both_given : Text → Text → ConfigFailure
  invalid_size : Text → ConfigFailure
  invalid_cache_size : Text → ConfigFailure
  routes_error : RoutesError → ConfigFailure

-- The globals, and the reads of a table, each of which may fail.
pub record LuaState (F T : Type 0) : Type 0 where
  pub global : Text → Result Text (Value F T)
  pub routes : Result Text Global
  pub get : T → Text → Result Text (Value F T)
  pub pairs : T → List (Result Text (Value F T × Value F T))
  pub format_lua_number : F → Text

unfoldable pub show_integer : ℤ → Text
unfolding decimal
show_integer (pos n) = decimal n
show_integer (negsuc n) = b'-' ∷ decimal (suc n)

abbrev last_byte : Text → ℕ
last_byte [] = 0
last_byte (c ∷ []) = c
last_byte (c ∷ d ∷ s) = last_byte (d ∷ s)

-- The digits and what they count.
unfoldable pub split_unit : Text → Text × ℕ
split_unit s =
    let c = last_byte s in
    let front = take (length s - 1) s in
    if c == b'M' || c == b'm'
    then (front, 1024 * 1024)
    else if c == b'G' || c == b'g'
    then (front, 1024 * 1024 * 1024)
    else (s, 1)

unfoldable pub parse_size_string : Text → Result ConfigFailure ℤ
unfolding split_unit parse_i64 checked_mul trim
parse_size_string s =
    if is_empty s
    then ok (pos 0)
    else if s =t= codes "-1"
    then ok (negsuc 0)
    else let (digits, unit) = split_unit s in
      ok_or (and_then (parse_i64 (trim digits)) (λ v. checked_mul v unit)) (invalid_size s)

abbrev lua : {A : Type 0} → Result Text A → Result ConfigFailure A
lua (ok a) = ok a
lua (err t) = err (lua_error t)

module _ {F T : Type 0} (vm : LuaState F T) where
  unfoldable pub section : Text → Result ConfigFailure (Option T)
  section name = do v ← lua (vm.global name); ok (elim v [ table t ↦ some t | _ ↦ none ])

  unfoldable pub field : Option T → Text → Result ConfigFailure (Value F T)
  field none key = ok nil
  field (some t) key = lua (vm.get t key)

  module _ (sec : Option T) (sec_name key : Text) where
    unfoldable pub cfg_string : Text → Result ConfigFailure Text
    unfolding field show_integer
    cfg_string default = do
      v ← field sec key
      elim v [
        | nil ↦ ok default
        | string s ↦ ok s
        | integer i ↦ ok (show_integer i)
        | number n ↦ ok (vm.format_lua_number n)
        | _ ↦ err (expected a_string sec_name key)
      ]

    unfoldable pub cfg_integer : ℤ → Result ConfigFailure ℤ
    unfolding field
    cfg_integer default = do
      v ← field sec key
      elim v [ nil ↦ ok default | integer i ↦ ok i | _ ↦ err (expected an_integer sec_name key) ]

    unfoldable pub cfg_boolean : Bool → Result ConfigFailure Bool
    unfolding field
    cfg_boolean default = do
      v ← field sec key
      elim v [ nil ↦ ok default | boolean b ↦ ok b | _ ↦ err (expected a_boolean sec_name key) ]

    -- Only whether it is an error matters: the value decides on a warning.
    unfoldable pub cfg_float : Result ConfigFailure (Unit {0})
    unfolding field
    cfg_float = do
      v ← field sec key
      elim v [
        | nil ↦ ok tt
        | integer i ↦ ok tt
        | number n ↦ ok tt
        | _ ↦ err (expected a_number sec_name key)
      ]

    -- The pairs of texts, the newest first.
    unfoldable pub string_pairs :
        List (Text × Text)
        → List (Result Text (Value F T × Value F T))
        → Result ConfigFailure (List (Text × Text))
    string_pairs acc [] = ok acc
    string_pairs acc (err t ∷ ps) = err (lua_error t)
    string_pairs acc (ok (string k, string v) ∷ ps) = string_pairs ((k, v) ∷ acc) ps
    string_pairs acc (ok (k, v) ∷ ps) = string_pairs acc ps

    unfoldable pub cfg_string_table : Result ConfigFailure (Option (List (Text × Text)))
    unfolding field string_pairs
    cfg_string_table = do
      v ← field sec key
      elim v [
        | nil ↦ ok none
        | table t ↦ string_pairs [] (vm.pairs t) >>= λ m. ok (some m)
        | _ ↦ err (no_table key sec_name)
      ]

  -- A key, or its deprecated spelling, or the default.
  unfoldable pub pick : Text → Text → Text → Text → Text → Result ConfigFailure Text
  pick new old deprecated key default =
      if is_empty new
      then (if is_empty old then ok default else ok old)
      else if is_empty old
      then ok new
      else err (both_given deprecated key)

  unfoldable pub read_cache_size : Option T → Result ConfigFailure Text
  unfolding cfg_string pick parse_size_string
  read_cache_size sipi = do
    new ← cfg_string sipi (codes "sipi") (codes "cache_size") []
    old ← cfg_string sipi (codes "sipi") (codes "cachesize") []
    size ← pick new old (codes "cachesize") (codes "cache_size") (codes "200M")
    v ← parse_size_string size
    elim v [
      | pos n ↦ ok size
      | negsuc n ↦ if n == 0 then ok size else err (invalid_cache_size size)
    ]

abbrev get_key : Text → List (Text × Text) → Option Text
get_key key [] = none
get_key key ((k, v) ∷ m) = let rest = get_key key m in if k =t= key then some v else rest

unfoldable pub quality_of : Option (List (Text × Text)) → LuaScalingQuality
quality_of none = record { jpeg = none; tiff = none; png = none; j2k = none }
quality_of (some m) = record {
  jpeg = get_key (codes "jpeg") m;
  tiff = get_key (codes "tiff") m;
  png = get_key (codes "png") m;
  j2k = get_key (codes "j2k") m;
}

-- `v.max(0)`, and `v` or 30 where it is less than 1.
unfoldable pub not_negative : ℤ → ℤ
not_negative (pos n) = pos n
not_negative (negsuc n) = pos 0

unfoldable pub at_least_one : ℤ → ℤ
at_least_one (pos n) = if n == 0 then pos 30 else pos n
at_least_one (negsuc n) = pos 30
