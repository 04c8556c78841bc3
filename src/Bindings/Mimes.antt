-- ===== src/Bindings/Mimes.antt =====
-- `parse_mimetype`, and when a MIME type can be parsed. `str::get` of a range that ends inside a character
-- answers nothing; the texts here are compared with ASCII, so that a range of bytes serves.
use sipi.Common.{
  ℕ, List, [], ◌∷◌, ◌++◌, Option, none, some, Text, codes, is_empty, take, drop, ◌=t=◌, ◌==◌,
  split_once, strip_prefix, to_ascii_lowercase, if◌then◌else◌,
}
use sipi.Settings.{Value}
use sipi.Bindings.{Lua, Reply, fields, failed, coerce_string}
use sipi.Common.Spaces.{trim_start}
use sipi.Bindings.Requests.{mime_fields}

abbrev trim_front : ℕ → Text → Text
trim_front q [] = []
trim_front q (c ∷ s) = let rest = trim_front q s in if c == q then rest else c ∷ s

abbrev trim_back : ℕ → Text → Text
trim_back q [] = []
trim_back q (c ∷ s) =
    let rest = trim_back q s in if is_empty rest then if c == q then [] else c ∷ [] else c ∷ rest

-- `s.trim_matches(q)`.
unfoldable pub trim_matches : ℕ → Text → Text
trim_matches q s = trim_back q (trim_front q s)

unfoldable pub charset_of : Text → Option Text
charset_of rest = elim (strip_prefix (codes "charset=") rest) [
  | some value ↦ some value
  | none ↦
      if to_ascii_lowercase (take 8 rest) =t= codes "charset=" then some (drop 8 rest) else none
]

unfoldable pub split_mimetype : Text → Option (Text × Option Text)
unfolding trim_start charset_of trim_matches
split_mimetype s = elim (split_once b';' s) [
  | none ↦ if is_empty s then none else some (to_ascii_lowercase s, none)
  | some (mime, rest) ↦ if is_empty mime then none else elim (charset_of (trim_start rest)) [
    | none ↦ none
    | some value ↦
        let charset = trim_matches b'"' value in
        if is_empty charset
        then none
        else some (to_ascii_lowercase mime, some (to_ascii_lowercase charset))
  ]
]

module _ {F T : Type 0} (lua : Lua F T) where
  unfoldable pub parse_mimetype : List (Value F T) → Reply
  unfolding coerce_string split_mimetype
  parse_mimetype [] = failed (codes "server.parse_mimetype(): no argument given")
  parse_mimetype (a ∷ args) = elim (coerce_string lua a) [
    | none ↦ failed (codes "server.parse_mimetype(): argument is not a string")
    | some s ↦ elim (split_mimetype s) [
      | none ↦ failed (codes "server.parse_mimetype() failed: Could not parse MIME type: " ++ s)
      | some (mimetype, charset) ↦ fields (mime_fields mimetype charset)
    ]
  ]
