-- ===== src/Runtime.antt =====
-- The compiled chunks of scripts and the modules that scripts require: src/scripting/rust/runtime.rs.
-- The virtual machine is a parameter, and so is what the file system answers during one call.
pub mod Fresh
pub mod Modules
mod Tests
use sipi.Common.{
  ℕ, ◌+◌, List, [], ◌∷◌, ◌++◌, Bool, true, false, ◌&&◌, ◌||◌, not, Option, none, some, Text, codes,
  is_empty, ◌==◌, ◌=t=◌, leb, starts_with, ends_with, if◌then◌else◌, Result, ok, err, ◌>>=◌,
  fetch_add, is_ascii_digit,
}

-- The kinds of `std::io::Error` that the code tells apart, with their texts.
pub data IoError : Type 0 where
  missing : IoError
  other : Text → IoError

pub record Metadata : Type 0 where
  pub modified : Result Text ℕ
  pub len : ℕ

pub record FileSystem : Type 0 where
  pub metadata : Text → Result IoError Metadata
  pub read : Text → Result Text Text

-- A compiled function `F`, and its bytecode `B`: `load` in text and in binary mode, under a chunk's name,
-- and `dump`.
pub record Lua (F B : Type 0) : Type 0 where
  pub load_text : Text → Text → Result Text F
  pub load_binary : Text → B → Result Text F
  pub dump : F → B

pub record CachedChunk (B : Type 0) : Type 0 where
  pub mtime : ℕ
  pub len : ℕ
  pub bytecode : B

pub record BytecodeCache (B : Type 0) : Type 0 where
  pub chunks : List (Text × CachedChunk B)
  pub hits : ℕ
  pub misses : ℕ

pub data LoadError : Type 0 where
  not_found : Text → LoadError
  io : Text → Text → LoadError
  compile : Text → LoadError

abbrev pub chunk_name : Text → Text
chunk_name path = b'@' ∷ path

-- `source.drain(..end)`, up to the end of the line.
unfoldable pub rest_of_line : Text → Text
rest_of_line [] = []
rest_of_line (c ∷ s) = let rest = rest_of_line s in if c == b'\n' then c ∷ s else rest

unfoldable pub skip_shebang : Text → Text
unfolding rest_of_line
skip_shebang source = if starts_with (codes "#") source then rest_of_line source else source

abbrev pub as_compile : {F : Type 0} → Result Text F → Result LoadError F
as_compile (ok f) = ok f
as_compile (err e) = err (compile e)

-- The time and the size of the file.
unfoldable pub stamp : FileSystem → Text → Result LoadError (ℕ × ℕ)
stamp fs path = elim (fs.metadata path) [
  | err e ↦ elim e [ missing ↦ err (not_found path) | other t ↦ err (io path t) ]
  | ok meta ↦ elim meta.modified [ err t ↦ err (io path t) | ok mtime ↦ ok (mtime, meta.len) ]
]

module _ {B : Type 0} where
  abbrev pub new : BytecodeCache B
  new = record { chunks = []; hits = 0; misses = 0 }

  unfoldable pub get_chunk : Text → List (Text × CachedChunk B) → Option (CachedChunk B)
  get_chunk path [] = none
  get_chunk path ((p, c) ∷ cs) = let rest = get_chunk path cs in if p =t= path then some c else rest

  -- The newest entry of a path stands first.
  abbrev pub insert_chunk :
      Text → CachedChunk B → List (Text × CachedChunk B) → List (Text × CachedChunk B)
  insert_chunk path c cs = (path, c) ∷ cs

  -- The cached chunk, if it has the time and the size.
  unfoldable pub current : ℕ → ℕ → Option (CachedChunk B) → Option (CachedChunk B)
  current mtime len none = none
  current mtime len (some c) = if c.mtime == mtime && c.len == len then some c else none

  module _ {F : Type 0} (lua : Lua F B) (fs : FileSystem) where
    unfoldable pub compile_source : Text → Result LoadError F
    unfolding skip_shebang
    compile_source path = elim (fs.read path) [
      | err t ↦ err (io path t)
      | ok source ↦ as_compile (lua.load_text (chunk_name path) (skip_shebang source))
    ]

    unfoldable pub miss : ℕ → ℕ → Text → BytecodeCache B → Result LoadError F × BytecodeCache B
    unfolding compile_source
    miss mtime len path cache =
        let missed = record cache { misses = fetch_add cache.misses } in
        elim (compile_source path) [
          | err e ↦ (err e, missed)
          | ok f ↦ (
            ok f,
            record missed {
              chunks =
                  insert_chunk path (record { mtime = mtime; len = len; bytecode = lua.dump f })
                    missed.chunks;
            },
          )
        ]

    unfoldable pub load_function : Text → BytecodeCache B → Result LoadError F × BytecodeCache B
    unfolding stamp get_chunk current miss
    load_function path cache = elim (stamp fs path) [
      | err e ↦ (err e, cache)
      | ok (mtime, len) ↦ elim (current mtime len (get_chunk path cache.chunks)) [
        | some c ↦ (
          as_compile (lua.load_binary (chunk_name path) c.bytecode),
          record cache { hits = fetch_add cache.hits },
        )
        | none ↦ miss mtime len path cache
      ]
    ]

abbrev pub is_word : ℕ → Bool
is_word b = is_ascii_digit b || (leb 65 b && leb b 90) || (leb 97 b && leb b 122) || b == b'_'

abbrev pub all_words : Text → Bool
all_words [] = true
all_words (b ∷ s) = is_word b && all_words s

unfoldable pub is_valid_module_name : Text → Bool
is_valid_module_name name = not (is_empty name) && all_words name

-- `Path::join` with a name that is not absolute, on Unix.
unfoldable pub join_path : Text → Text → Text
join_path dir name =
    if is_empty dir || ends_with (codes "/") dir then dir ++ name else dir ++ b'/' ∷ name

-- What the searcher of `require` returns: a loader with its path, or why there is none.
pub data Found (F : Type 0) : Type 0 where
  loader : F → Text → Found F
  refused : Text → Found F

unfoldable pub module_path : Text → Text → Text
unfolding join_path
module_path script_dir name = join_path script_dir (name ++ codes ".lua")

unfoldable pub searched :
    {F : Type 0} → Text → Result LoadError F → Result (Option LoadError) (Found F)
searched path (ok f) = ok (loader f path)
searched path (err (not_found p)) = ok (refused (codes "\n\tno file '" ++ (p ++ codes "'")))
searched path (err e) = err (some e)

-- `expired` tells the deadline's check, and an error of the searcher is raised in the script.
module _ {F B : Type 0} (lua : Lua F B) (fs : FileSystem) (script_dir : Text) where
  unfoldable pub searcher :
      Bool → Text → BytecodeCache B → Result (Option LoadError) (Found F) × BytecodeCache B
  unfolding is_valid_module_name module_path searched load_function
  searcher expired name cache =
      if expired
      then (err none, cache)
      else if not (is_valid_module_name name)
      then (
        ok (
            refused (
              codes "\n\tmodule name '"
              ++ (name ++ codes "' not permitted (script-dir modules only)"))),
        cache,
      )
      else let path = module_path script_dir name in
        let (r, cache) = load_function lua fs path cache in (searched path r, cache)
