-- ===== src/Docroot/Handler.antt =====
-- The handler `serve_docroot` of server-rs/src/routes.rs.
use sipi.Common.{
  ℕ, List, [], ◌∷◌, ◌++◌, Bool, false, ◌||◌, Option, none, some, Text, codes, is_empty, ◌=t=◌, ◌==◌,
  strip_prefix, starts_with, if◌then◌else◌, ok, err,
}
use sipi.Http.{Http, Response, no_body}
use sipi.Sink.{error_response, stream_response, apply_headers}
use sipi.Paths.{contains_traversal}
use sipi.Access.{Request}
use sipi.Replies.{cors_preflight_response}
use sipi.Ranges.{extension_of, decode_path_suffix}
use sipi.Docroot.{
  StaticOutcome, streamed, head, failed, Disk, resolve_docroot_file, serve_static_blocking,
}

unfoldable pub trim_start_slashes : Text → Text
trim_start_slashes [] = []
trim_start_slashes (c ∷ s) = let rest = trim_start_slashes s in if c == b'/' then rest else c ∷ s

unfoldable pub trim_end_slashes : Text → Text
trim_end_slashes [] = []
trim_end_slashes (c ∷ s) =
    let rest = trim_end_slashes s in
    if is_empty rest then if c == b'/' then [] else c ∷ [] else c ∷ rest

abbrev pub with_slash : Text → Text
with_slash suffix = if starts_with (codes "/") suffix then suffix else b'/' ∷ suffix

-- A response, a script to run with the docroot, or a region of a file to stream under a response.
pub data DocrootAction (M : Type 0) : Type 0 where
  answered : Response M → DocrootAction M
  script : Text → Text → DocrootAction M
  region : Response M → Text → ℕ → ℕ → DocrootAction M

unfoldable pub is_script : Option Text → Bool
is_script none = false
is_script (some ext) = ext =t= codes "lua" || ext =t= codes "elua"

module _ {M : Type 0} (http : Http M) where
  -- The names of the headers are distinct, so that an append is an insert.
  unfoldable pub head_only : ℕ → List (Text × Text) → Response M
  unfolding apply_headers
  head_only status headers = record {
    status = status;
    headers = apply_headers http http.empty headers;
    body = no_body;
  }

  unfoldable pub of_outcome : StaticOutcome → DocrootAction M
  unfolding head_only stream_response error_response
  of_outcome (streamed status headers path offset len) =
      region (stream_response http status headers) path offset len
  of_outcome (head status headers) = answered (head_only status headers)
  of_outcome (failed status) = answered (error_response http status)

  module _ (disk : Disk) (docroot wwwroute : Text) where
    unfoldable pub serve_file_of : Text → Request → DocrootAction M
    unfolding extension_of is_script resolve_docroot_file serve_static_blocking of_outcome
        error_response
    serve_file_of suffix req =
        let infile = docroot ++ suffix in
        let ext = extension_of suffix in
        if is_script ext
        then elim (resolve_docroot_file disk docroot infile) [
          | err status ↦ answered (error_response http status)
          | ok path ↦ script path docroot
        ]
        else of_outcome (
            serve_static_blocking disk docroot infile ext (req.method =t= codes "HEAD")
              (req.header_str (codes "range")) (req.header_str (codes "origin")))

    unfoldable pub serve_docroot : (Text → Option Text) → Request → DocrootAction M
    unfolding trim_start_slashes trim_end_slashes decode_path_suffix contains_traversal
        cors_preflight_response error_response serve_file_of
    serve_docroot percent_decode req =
        if req.method =t= codes "OPTIONS"
        then answered (cors_preflight_response http req)
        else elim (strip_prefix (trim_end_slashes wwwroute) req.path) [
          | none ↦ answered (error_response http 404)
          | some suffix_enc ↦ elim (decode_path_suffix percent_decode suffix_enc) [
            | none ↦ answered (error_response http 400)
            | some suffix ↦
                if contains_traversal (trim_start_slashes suffix)
                then answered (error_response http 400)
                else if is_empty suffix || suffix =t= codes "/"
                then answered (error_response http 404)
                else serve_file_of (with_slash suffix) req
          ]
        ]
