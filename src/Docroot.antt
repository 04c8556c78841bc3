-- ===== src/Docroot.antt =====
-- The file server of the docroot: the `/server` routes of server-rs/src/routes.rs. The operating system and
-- the MIME sniff of the engine are the parameter `Disk`.
pub mod Handler
pub mod Files
mod Tests
use sipi.Common.{
  ℕ, ◌-◌, ◌+◌, List, [], ◌∷◌, ◌++◌, Bool, true, false, ◌&&◌, Option, none, some, Text, codes, ◌=t=◌,
  unwrap_or, if◌then◌else◌, Result, ok, err, ◌>>=◌, ok_or,
}
use sipi.Paths.{validate_resolved_path, resolved, not_found, traversal}
use sipi.Ranges.{parse_byte_range, decimal}

unfoldable pub push_cors : List (Text × Text) → Option Text → List (Text × Text)
push_cors headers none = headers
push_cors headers (some o) = headers ++ (codes "access-control-allow-origin", o) ∷ []

pub data StaticOutcome : Type 0 where
  streamed : ℕ → List (Text × Text) → Text → ℕ → ℕ → StaticOutcome
  head : ℕ → List (Text × Text) → StaticOutcome
  failed : ℕ → StaticOutcome

-- What `stat` tells of a file; the time of its change as an HTTP date.
pub record Metadata : Type 0 where
  pub is_file : Bool
  pub size : ℕ
  pub modified : Option Text

pub record Disk : Type 0 where
  pub canonicalize : Text → Option Text
  pub metadata : Text → Option Metadata
  pub mimetype : Text → Option Text

module _ (disk : Disk) where
  unfoldable pub resolve_docroot_file : Text → Text → Result ℕ Text
  unfolding validate_resolved_path
  resolve_docroot_file docroot infile = do
    canon_root ← ok_or (disk.canonicalize docroot) 404
    p ← (elim (validate_resolved_path disk.canonicalize infile canon_root) [
      | resolved p ↦ ok p
      | not_found ↦ err 404
      | traversal ↦ err 400
    ])
    elim (disk.metadata p) [ none ↦ err 404 | some m ↦ if m.is_file then ok p else err 404 ]

  unfoldable pub static_special : Text → Text → Bool → Option Text → StaticOutcome
  unfolding push_cors
  static_special path content_type is_head origin = elim (disk.metadata path) [
    | none ↦ failed 404
    | some m ↦
        let headers = push_cors ((codes "content-type", content_type) ∷ []) origin in
        if is_head then head 200 headers else streamed 200 headers path 0 m.size
  ]

  abbrev pub last_modified : Metadata → List (Text × Text)
  last_modified m = elim m.modified [ none ↦ [] | some date ↦ (codes "last-modified", date) ∷ [] ]

  unfoldable pub binary_headers : Text → Metadata → Option Text → List (Text × Text)
  unfolding push_cors
  binary_headers mime m origin =
      push_cors
        ((codes "content-type", mime)
          ∷ (codes "cache-control", codes "public, must-revalidate, max-age=0")
          ∷ (codes "pragma", codes "no-cache")
          ∷ (codes "accept-ranges", codes "bytes")
          ∷ last_modified m)
        origin

  unfoldable pub range_headers : Text → ℕ → ℕ → ℕ → List (Text × Text)
  unfolding decimal
  range_headers infile start e fsize =
      (
        codes "content-range",
        codes "bytes "
            ++ (decimal start ++ (codes "-" ++ (decimal e ++ (codes "/" ++ decimal fsize)))),
      )
      ∷ (codes "content-disposition", codes "inline; filename=" ++ infile)
      ∷ []

  unfoldable pub static_binary :
      Text → Text → Text → Option Text → Bool → Option Text → StaticOutcome
  unfolding binary_headers range_headers parse_byte_range
  static_binary path infile mime range is_head origin = elim (disk.metadata path) [
    | none ↦ failed 404
    | some m ↦
        let headers = binary_headers mime m origin in
        elim range [
          | none ↦ if is_head then head 200 headers else streamed 200 headers path 0 m.size
          | some raw ↦ elim (parse_byte_range raw m.size) [
            | none ↦ failed 500
            | some (start, e) ↦
                let headers = headers ++ range_headers infile start e m.size in
                if is_head
                then head 206 headers
                else streamed 206 headers path start (e - start + 1)
          ]
        ]
  ]

  -- The type of a script or a style sheet.
  unfoldable pub special_type : Option Text → Option Text
  special_type none = none
  special_type (some ext) =
      if ext =t= codes "js"
      then some (codes "application/javascript; charset=utf-8")
      else if ext =t= codes "css"
      then some (codes "text/css; charset=utf-8")
      else none

  unfoldable pub describe :
      Text → Text → Option Text → Bool → Option Text → Option Text → StaticOutcome
  unfolding special_type static_special static_binary
  describe path infile ext is_head range origin = elim (special_type ext) [
    | some ct ↦ static_special path ct is_head origin
    | none ↦ elim (disk.mimetype path) [
      | none ↦ failed 500
      | some mime ↦
          if unwrap_or ext [] =t= codes "html" && mime =t= codes "text/html"
          then static_special path (codes "text/html; charset=utf-8") is_head origin
          else static_binary path infile mime range is_head origin
    ]
  ]

  unfoldable pub serve_static_blocking :
      Text → Text → Option Text → Bool → Option Text → Option Text → StaticOutcome
  unfolding resolve_docroot_file describe
  serve_static_blocking docroot infile ext is_head range origin =
      elim (resolve_docroot_file docroot infile) [
        | err status ↦ failed status
        | ok path ↦ describe path infile ext is_head range origin
      ]
