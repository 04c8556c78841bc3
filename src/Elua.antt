-- ===== src/Elua.antt =====
-- Routed scripts of .lua and .elua files: the dispatch of `run_route` and `run_elua` of
-- src/scripting/rust/entry.rs.
pub mod Find
pub mod Pages
mod Tests
use sipi.Common.{
  ◌||◌, ℕ, zero, suc, ◌+◌, ◌-◌, List, [], ◌∷◌, Bool, true, false, Option, none, some, Text, codes,
  is_empty, ◌=t=◌, leb, length, take, drop, split, to_ascii_lowercase, starts_with, unwrap_or,
  if◌then◌else◌, Result, ok, err,
}
use sipi.Scripts.{
  Script, RuntimeError, returns, fails, send_status, send_header, send_cookie, print,
}
use sipi.Scripts.Route.{Loaded, missing, unloadable, loaded}
use sipi.Runtime.{
  IoError, FileSystem, Lua, LoadError, not_found, io, compile, BytecodeCache, load_function,
}
use sipi.Serve.Seam.{rfind}

-- `Path::file_name`: the last component that is not `.`, unless it is `..`.
abbrev last_normal : List Text → Option Text
last_normal [] = none
last_normal (t ∷ ts) = elim (last_normal ts) [
  | some name ↦ some name
  | none ↦ if is_empty t || t =t= codes "." then none else some t
]

unfoldable pub file_name : Text → Option Text
file_name path = elim (last_normal (split b'/' path)) [
  | none ↦ none
  | some name ↦ if name =t= codes ".." then none else some name
]

-- `Path::extension`, in lower case: what stands behind the last dot of the file name, unless that is its first
-- byte.
unfoldable pub lower_extension : Text → Option Text
unfolding file_name rfind
lower_extension path = elim (file_name path) [
  | none ↦ none
  | some name ↦ elim (rfind b'.' name) [
    | none ↦ none
    | some zero ↦ none
    | some (suc i) ↦ some (to_ascii_lowercase (drop (i + 2) name))
  ]
]

-- One script, and then another that depends on its value.
unfoldable pub and_run : {A B : Type 0} → Script A → (A → Script B) → Script B
and_run (returns a) f = f a
and_run (fails e) f = fails e
and_run (send_status n k) f = send_status n (and_run k f)
and_run (send_header name value k) f = send_header name value (and_run k f)
and_run (send_cookie c k) f = send_cookie c (and_run k f)
and_run (print bytes k) f = print bytes (λ done. and_run (k done) f)

-- `windows(needle.len()).position(..)`, for a needle that is not empty.
abbrev pub shifted : Option ℕ → Option ℕ
shifted none = none
shifted (some i) = some (suc i)

unfoldable pub position : Text → Text → Option ℕ
position needle [] = none
position needle (c ∷ s) =
    let rest = position needle s in if starts_with needle (c ∷ s) then some 0 else shifted rest

abbrev pub moved : ℕ → Option ℕ → Option ℕ
moved from none = none
moved from (some i) = some (from + i)

unfoldable pub find : Text → Text → ℕ → Option ℕ
unfolding position
find haystack needle from =
    if leb from (length haystack) then moved from (position needle (drop from haystack)) else none

abbrev pub slice : Text → ℕ → ℕ → Text
slice code from to = take (to - from) (drop from code)

abbrev pub open_tag : Text
open_tag = codes "<lua>"

abbrev pub close_tag : Text
close_tag = codes "</lua>"

-- Where there is no byte to write, nothing is written; a write fails when the client is gone.
unfoldable pub write_html : {A : Type 0} → Text → Script A → Script A
write_html html k =
    if is_empty html then k else print html (λ done. if done then k else fails RuntimeError.other)

-- `V` is the state of the virtual machine, which all chunks share, and `exec` runs a chunk.
module _ {V : Type 0} (exec : V → Text → Script V) where
  -- The loop, on fuel for its rounds.
  unfoldable pub elua_loop : ℕ → Text → ℕ → V → Script (Unit {0})
  unfolding write_html and_run find
  elua_loop zero code cursor v = returns tt
  elua_loop (suc fuel) code cursor v = elim (find code open_tag cursor) [
    | none ↦ write_html (drop cursor code) (returns tt)
    | some open_at ↦
        write_html (slice code cursor open_at) (elim (find code close_tag (open_at + 5)) [
          | none ↦ and_run (exec v (drop (open_at + 5) code)) (λ u. fails RuntimeError.other)
          | some close ↦
              and_run (exec v (slice code (open_at + 5) close))
                (λ u. elua_loop fuel code (close + 6) u)
        ])
  ]

  unfoldable pub run_elua : Text → V → Script (Unit {0})
  unfolding elua_loop
  run_elua code v = elua_loop (suc (length code)) code 0 v

  -- The script that a route runs, by the extension of its path.
  unfoldable pub load_script :
      {F B : Type 0}
      → Lua F B
      → FileSystem
      → (Text → Result IoError Text)
      → (F → Script (Unit {0}))
      → V
      → Text
      → BytecodeCache B
      → Loaded × BytecodeCache B
  unfolding load_function run_elua lower_extension
  load_script lua fs read call v path cache =
      let ext = unwrap_or (lower_extension path) [] in
      if ext =t= codes "lua"
      then (let (r, cache) = load_function lua fs path cache in
          (
            elim r [
              | ok chunk ↦ loaded (call chunk)
              | err e ↦ elim e [ not_found p ↦ missing | _ ↦ unloadable ]
            ],
            cache,
          ))
      else if ext =t= codes "elua"
      then (
        elim (read path) [
          | ok code ↦ loaded (run_elua code v)
          | err e ↦ elim e [ IoError.missing ↦ missing | IoError.other t ↦ unloadable ]
        ],
        cache,
      )
      else (unloadable, cache)
