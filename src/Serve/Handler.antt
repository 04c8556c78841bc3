-- ===== src/Serve/Handler.antt =====
-- The handler `iiif` of server-rs/src/routes.rs, from the request to the response.
use sipi.Common.{
  ℕ, List, [], ◌∷◌, Bool, ◌&&◌, Option, none, some, Text, codes, ok, err, leb, if◌then◌else◌,
}
use sipi.Http.{Http, Response}
use sipi.Sink.{World, Outcome, complete, stream_head, BodyItem, error_response, stream_response}
use sipi.Preflight.{PreflightCache}
use sipi.Iiif.Domain.{Floats}
use sipi.Iiif.Request.{ParsedRequest}
use sipi.Access.{Request, AppState}
use sipi.Replies.{content_disposition, origin_of, with_origin, with_header}
use sipi.Serve.{admitted, dispatch, is_file}
use sipi.Serve.Seam.{Seam, Host}
use sipi.Serve.Calls.{perform}

abbrev pub is_success : ℕ → Bool
is_success status = leb 200 status && leb status 299

module _ {M F : Type 0} (http : Http M) where
  -- The file name of a download with a range, where the response is a success.
  unfoldable pub with_disposition : ParsedRequest F → Request → Response M → Response M
  unfolding content_disposition
  with_disposition parsed req r =
      if is_file parsed.kind && req.contains_key (codes "range")
      then elim (content_disposition http parsed.identifier) [
        | none ↦ r
        | some cd ↦
            if is_success r.status then with_header http (codes "content-disposition") cd r else r
      ]
      else r

  -- The response, from what the outcome channel brings; a sender that is dropped without one is a panic.
  unfoldable pub respond : ParsedRequest F → Request → List (Outcome M) → Response M
  unfolding error_response stream_response with_disposition origin_of
  respond parsed req [] = error_response http 500
  respond parsed req (complete r ∷ os) = r
  respond parsed req (stream_head status head ∷ os) =
      with_disposition parsed req
        (with_origin http (origin_of http req) (stream_response http status head))

module _ {M F R : Type 0} (http : Http M) (fl : Floats F) (urldecode : Text → Text)
    (hash : Text → ℕ) (canonicalize : Text → Option Text) (seam : Seam F) (host : Host R)
    (st : AppState) where
  -- The response with its body's chunks, and the cache that is left; `none` for a panic in the cache.
  unfoldable pub handle :
      World
      → Bool
      → Option PreflightCache
      → Request
      → ℕ
      → ℕ
      → Option (Response M × List BodyItem × Option PreflightCache)
  unfolding admitted dispatch perform respond
  handle world permit cache req now later = elim (admitted http st fl urldecode req permit) [
    | err r ↦ some (r, [], cache)
    | ok parsed ↦ elim (dispatch http st hash canonicalize cache parsed req now later) [
      | none ↦ none
      | some (action, cache) ↦
          let s = perform http seam host world parsed req action in
          some (respond http parsed req s.outcomes, s.items, cache)
    ]
  ]
