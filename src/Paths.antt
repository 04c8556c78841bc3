-- ===== src/Paths.antt =====
-- The path of a request and the two checks of it: server-rs/src/path.rs. `canonicalize`, the realpath
-- of the operating system as lossy text, is a parameter that fails where the file does not exist.
pub mod Traversal
pub mod Within
mod Tests
use sipi.Common.{
  ℕ, List, [], ◌∷◌, ◌++◌, Bool, true, false, not, ◌&&◌, ◌||◌, Option, none, some, Text, codes,
  ◌=t=◌, ◌==◌, if◌then◌else◌, starts_with, ends_with, contains, to_ascii_lowercase, is_empty,
  length, get_elem?,
}

unfoldable pub contains_traversal : Text → Bool
contains_traversal decoded =
    if decoded =t= codes ".."
      || starts_with (codes "../") decoded
      || ends_with (codes "/..") decoded
      || contains (codes "/../") decoded
    then true
    else let lower = to_ascii_lowercase decoded in
      contains (codes "%2e%2e") lower || contains (codes "%252e%252e") lower

-- `bytes[i] == b'/'`, for an index within the text.
abbrev slash_at : Text → ℕ → Bool
slash_at s i = elim (get_elem? s i) [ none ↦ false | some c ↦ c == b'/' ]

unfoldable pub is_within : Text → Text → Bool
is_within resolved resolved_root =
    if not (starts_with resolved_root resolved)
    then false
    else length resolved == length resolved_root || slash_at resolved (length resolved_root)

unfoldable pub build_request_path : Text → Text → Text → Bool → Text
build_request_path imgroot prefix identifier prefix_as_path =
    if prefix_as_path && not (is_empty prefix)
    then imgroot ++ codes "/" ++ prefix ++ codes "/" ++ identifier
    else imgroot ++ codes "/" ++ identifier

pub data Resolved : Type 0 where
  resolved : Text → Resolved
  not_found traversal : Resolved

unfoldable pub validate_resolved_path : (Text → Option Text) → Text → Text → Resolved
unfolding is_within
validate_resolved_path canonicalize file_path resolved_root = elim (canonicalize file_path) [
  | none ↦ not_found
  | some canon ↦ if is_within canon resolved_root then resolved canon else traversal
]
