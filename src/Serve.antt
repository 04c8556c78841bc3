-- ===== src/Serve.antt =====
-- The IIIF handler, server-rs/src/routes.rs: the checks of a request, the decision what to do for it,
-- and the calls of the engine. What the engine does is a parameter, the program of callbacks that a call
-- runs; so are the operating system and whether the pool admits the request.
pub mod Gate
pub mod Seam
pub mod Calls
pub mod Safety
pub mod Handler
pub mod Conveyed
pub mod Answers
mod Tests
use sipi.Common.{
  ℕ, List, [], ◌∷◌, ◌++◌, Bool, true, false, not, ◌&&◌, ◌||◌, Option, none, some, Text, codes,
  ◌=t=◌, ◌==◌, if◌then◌else◌, Result, ok, err, ◌>>=◌,
}
use sipi.Http.{Http, Response}
use sipi.Sink.{error_response}
use sipi.Preflight.{SipiPermType, PreflightCache}
use sipi.Paths.{contains_traversal}
use sipi.Iiif.Domain.{Floats}
use sipi.Iiif.Request.{
  ParsedRequest, RequestKind, iiif, info_json, knora_json, redirect, file_download, parse_request,
}
use sipi.Access.{Request, Access, AppState, Answer, iiif_access, file_access, resolve, is_granted}
use sipi.Replies.{busy_response}

unfoldable pub has_nul : Text → Bool
has_nul [] = false
has_nul (c ∷ s) = c == 0 || has_nul s

abbrev pub is_redirect : RequestKind → Bool
is_redirect redirect = true
is_redirect iiif = false
is_redirect info_json = false
is_redirect knora_json = false
is_redirect file_download = false

-- `parsed.kind == RequestKind::FileDownload`.
abbrev pub is_file : RequestKind → Bool
is_file file_download = true
is_file iiif = false
is_file info_json = false
is_file knora_json = false
is_file redirect = false

-- What is done for a request: a response, or a serve of the file at a resolved path.
pub data Action (M : Type 0) : Type 0 where
  reply : Response M → Action M
  serve_image serve_info : Text → Access → Action M
  serve_file serve_knora : Text → Action M

module _ {M F : Type 0} (http : Http M) (st : AppState) where
  -- The checks before the pool: a request that passes them, or the response.
  unfoldable pub checked : Floats F → (Text → Text) → Request → Answer http (ParsedRequest F)
  unfolding has_nul contains_traversal sipi.Replies.redirect error_response parse_request
  checked fl urldecode req =
      if not st.ready
      then err (error_response http 503)
      else elim (parse_request fl urldecode req.path) [
        | err e ↦ err (error_response http 400)
        | ok parsed ↦
            if has_nul parsed.identifier || has_nul parsed.prefix
            then err (error_response http 400)
            else if contains_traversal parsed.identifier
                || (st.prefix_as_path && contains_traversal parsed.prefix)
            then err (error_response http 400)
            else if is_redirect parsed.kind
            then err (sipi.Replies.redirect http req parsed)
            else ok parsed
      ]

  -- The request that goes on to the engine, if the pool admits it.
  unfoldable pub admitted :
      Floats F → (Text → Text) → Request → Bool → Answer http (ParsedRequest F)
  unfolding checked busy_response
  admitted fl urldecode req permit =
      checked fl urldecode req >>= λ parsed. if permit then ok parsed else err (busy_response http)

module _ {M : Type 0} (http : Http M) (st : AppState) where
  -- What an access leads to, for a request of a kind.
  unfoldable pub act : (Text → Option Text) → RequestKind → Access → Action M
  unfolding is_granted resolve error_response
  act canonicalize iiif access =
      if is_granted access.permission
      then elim (resolve http canonicalize access.infile st.resolved_imgroot) [
        | err r ↦ reply r
        | ok p ↦ serve_image p access
      ]
      else reply (error_response http 401)
  act canonicalize info_json access =
      elim (resolve http canonicalize access.infile st.resolved_imgroot) [
        | err r ↦ reply r
        | ok p ↦ serve_info p access
      ]
  act canonicalize knora_json access =
      elim (resolve http canonicalize access.infile st.resolved_imgroot) [
        | err r ↦ reply r
        | ok p ↦ serve_knora p
      ]
  act canonicalize file_download access =
      elim (resolve http canonicalize access.infile st.resolved_imgroot) [
        | err r ↦ reply r
        | ok p ↦ serve_file p
      ]
  -- The caller answers a redirect; the panic here would end as this response.
  act canonicalize redirect access = reply (error_response http 500)

  unfoldable pub acted : (Text → Option Text) → RequestKind → Answer http Access → Action M
  unfolding act
  acted canonicalize kind (err r) = reply r
  acted canonicalize kind (ok access) = act canonicalize kind access

module _ {M F : Type 0} (http : Http M) (st : AppState) where
  -- The decision of `dispatch_engine`, with the cache it leaves; `none` for a panic in the cache.
  unfoldable pub dispatch :
      (Text → ℕ)
      → (Text → Option Text)
      → Option PreflightCache
      → ParsedRequest F
      → Request
      → ℕ
      → ℕ
      → Option (Action M × Option PreflightCache)
  unfolding acted file_access iiif_access
  dispatch hash canonicalize cache parsed req now later =
      if is_file parsed.kind
      then some
          (acted http st canonicalize file_download (file_access http hash st parsed req), cache)
      else elim (iiif_access http hash st parsed req cache now later) [
        | none ↦ none
        | some (answer, cache) ↦ some (acted http st canonicalize parsed.kind answer, cache)
      ]
