-- ===== src/Serve/Conveyed.antt =====
-- The response of the handler conveys what the action for a request commits to.
use sipi.Common.{
  ℕ, List, Bool, true, false, ◌||◌, ◌&&◌, ◌=t=◌, ◌⊎◌, Bool-cases, [], ◌∷◌, Option, none, some, Text,
  codes, and_then, ◌≡◌, inl, inr, refl, ◌∙◌, Option-cases,
}
use sipi.Http.{Http, Response, stream}
use sipi.Sink.{
  World, Outcome, complete, stream_head, deliver, error_response, stream_response, map_status_u16,
}
use sipi.Sink.Single.{commitment, serve_streaming-commitment}
use sipi.Iiif.Request.{ParsedRequest}
use sipi.Access.{Request}
use sipi.Sink.Headers.{last_value, or_else, get-apply_headers}
use sipi.Serve.{is_file, Action, reply, serve_image, serve_info, serve_file, serve_knora}
use sipi.Serve.Seam.{Seam, Host, c_string}
use sipi.Serve.Calls.{perform, image_request, serve_info_json, serve_knora_json}
use sipi.Serve.Handler.{respond, with_disposition, is_success}
use sipi.Replies.{origin_of, with_origin, with_header, content_disposition}

module _ {M F R : Type 0} (http : Http M) (seam : Seam F) (host : Host R) where
  -- What an action commits to: a whole response; or what the engine says, for a call that can be made.
  abbrev pub committed : World → ParsedRequest F → Request → Action M → Outcome M
  committed world parsed req (reply r) = complete r
  committed world parsed req (serve_info p access) =
      complete (serve_info_json http seam host p parsed req access)
  committed world parsed req (serve_knora p) =
      complete (serve_knora_json http seam host p parsed req)
  committed world parsed req (serve_image p access) =
      elim (image_request http seam host p parsed req access) [
        | none ↦ complete (error_response http 400)
        | some q ↦ commitment http (seam.sipi_serve_image q) world.patience 0 []
      ]
  committed world parsed req (serve_file p) = elim (c_string p) [
    | none ↦ complete (error_response http 400)
    | some q ↦
        commitment http
          (seam.sipi_serve_file q (and_then (req.header_str (codes "range")) c_string))
          world.patience 0 []
  ]

  -- Whatever is done for a request, one outcome is sent, which is what it commits to.
  pub perform-committed :
      (world : World) (parsed : ParsedRequest F) (req : Request) (action : Action M)
      → (perform http seam host world parsed req action).outcomes
        ≡ committed world parsed req action ∷ []
  unfolding perform deliver
  perform-committed world parsed req (reply r) = refl
  perform-committed world parsed req (serve_info p access) = refl
  perform-committed world parsed req (serve_knora p) = refl
  perform-committed world parsed req (serve_image p access) =
      elim (Option-cases (image_request http seam host p parsed req access)) [
        | inl e ↦ rw (perform, committed, e) refl
        | inr (q, e) ↦
            rw (perform, committed, e)
              (serve_streaming-commitment http host.files world (seam.sipi_serve_image q))
      ]
  perform-committed world parsed req (serve_file p) = elim (Option-cases (c_string p)) [
    | inl e ↦ rw (perform, committed, e) refl
    | inr (q, e) ↦
        rw (perform, committed, e)
          (serve_streaming-commitment http host.files world
            (seam.sipi_serve_file q (and_then (req.header_str (codes "range")) c_string)))
  ]

  -- The headers that the shell itself may set on a streamed response.
  abbrev pub set_by_shell : Text → Bool
  set_by_shell k =
      codes "content-disposition" =t= k
      || codes "access-control-allow-origin" =t= k
      || codes "access-control-allow-credentials" =t= k

  -- Every other header of a response is the last valid one that the engine has set under its name.
  abbrev pub Carries : List (Text × Text) → M → Type 0
  Carries head m = (k : Text) → (set_by_shell k ≡ true) ⊎ (http.get m k ≡ last_value http k head)

  -- A response conveys an outcome: it is the whole response, or, where that is a head, has its status and its
  -- headers and streams the body.
  abbrev pub Conveys : Outcome M → Response M → Type 0
  Conveys (complete r) response = response ≡ r
  Conveys (stream_head status head) response =
      (response.status ≡ map_status_u16 http status)
      × (response.body ≡ stream)
      × Carries head response.headers

  -- A response with the same status and body, whose headers differ at most in those that the shell sets.
  abbrev Keeps : Response M → Response M → Type 0
  Keeps r s =
      (s.status ≡ r.status)
      × (s.body ≡ r.body)
      × ((k : Text) → (set_by_shell k ≡ true) ⊎ (http.get s.headers k ≡ http.get r.headers k))

  or_else-absent : (o : Option Text) → or_else o none ≡ o
  or_else-absent none = refl
  or_else-absent (some v) = refl

  Keeps-refl : (r : Response M) → Keeps r r
  Keeps-refl r = (refl, refl, λ k. inr refl)

  Keeps-trans : (r s t : Response M) → Keeps r s → Keeps s t → Keeps r t
  Keeps-trans r s t (a, b, f) (c, d, g) = (
    c ∙ a,
    d ∙ b,
    λ k. elim (f k) [
      | inl e ↦ inl e
      | inr e ↦ elim (g k) [ inl e' ↦ inl e' | inr e' ↦ inr (e' ∙ e) ]
    ],
  )

  with_header-Keeps :
      (name value : Text) (r : Response M)
      → ((k : Text) → (name =t= k ≡ false) ⊎ (set_by_shell k ≡ true))
      → Keeps r (with_header http name value r)
  with_header-Keeps name value r named = (
    refl,
    refl,
    λ k. elim (named k) [
      | inl e ↦ inr (rw (http.get-insert name value r.headers k, e) refl)
      | inr e ↦ inl e
    ],
  )

  or-true : (a b : Bool) → (a || b || true) ≡ true
  or-true true b = refl
  or-true false true = refl
  or-true false false = refl

  or-true_right : (a b : Bool) → (a || true || b) ≡ true
  or-true_right true b = refl
  or-true_right false b = refl

  disposition_named :
      (k : Text) → (codes "content-disposition" =t= k ≡ false) ⊎ (set_by_shell k ≡ true)
  disposition_named k = elim (Bool-cases (codes "content-disposition" =t= k)) [
    | inl e ↦ inr (rw (e) refl)
    | inr e ↦ inl e
  ]

  origin_named :
      (k : Text) → (codes "access-control-allow-origin" =t= k ≡ false) ⊎ (set_by_shell k ≡ true)
  origin_named k = elim (Bool-cases (codes "access-control-allow-origin" =t= k)) [
    | inl e ↦ inr (rw (e) (or-true_right _ _))
    | inr e ↦ inl e
  ]

  credentials_named :
      (k : Text)
      → (codes "access-control-allow-credentials" =t= k ≡ false) ⊎ (set_by_shell k ≡ true)
  credentials_named k = elim (Bool-cases (codes "access-control-allow-credentials" =t= k)) [
    | inl e ↦ inr (
        rw (e)
          (or-true (codes "content-disposition" =t= k) (codes "access-control-allow-origin" =t= k)))
    | inr e ↦ inl e
  ]

  with_disposition-Keeps :
      (parsed : ParsedRequest F) (req : Request) (r : Response M)
      → Keeps r (with_disposition http parsed req r)
  unfolding with_disposition
  with_disposition-Keeps parsed req r =
      elim (Bool-cases (is_file parsed.kind && req.contains_key (codes "range"))) [
        | inr e ↦ rw (with_disposition, e) (Keeps-refl r)
        | inl e ↦ elim (Option-cases (content_disposition http parsed.identifier)) [
          | inl f ↦ rw (with_disposition, e, f) (Keeps-refl r)
          | inr (cd, f) ↦ elim (Bool-cases (is_success r.status)) [
            | inr g ↦ rw (with_disposition, e, f, g) (Keeps-refl r)
            | inl g ↦
                rw (with_disposition, e, f, g)
                  (with_header-Keeps (codes "content-disposition") cd r disposition_named)
          ]
        ]
      ]

  with_origin-Keeps : (o : Option Text) (r : Response M) → Keeps r (with_origin http o r)
  with_origin-Keeps none r = Keeps-refl r
  with_origin-Keeps (some origin) r =
      let s = with_header http (codes "access-control-allow-origin") origin r in
      Keeps-trans r s (with_origin http (some origin) r)
        (with_header-Keeps (codes "access-control-allow-origin") origin r origin_named)
        (with_header-Keeps (codes "access-control-allow-credentials") (codes "true") s
          credentials_named)

  stream_response-Carries :
      (status : ℕ) (head : List (Text × Text)) (k : Text)
      → http.get (stream_response http status head).headers k ≡ last_value http k head
  unfolding stream_response
  stream_response-Carries status head k =
      get-apply_headers http k http.empty head
      ∙ rw (http.get-empty k) (or_else-absent (last_value http k head))

  pub respond-Conveys :
      (parsed : ParsedRequest F) (req : Request) (o : Outcome M)
      → Conveys o (respond http parsed req (o ∷ []))
  unfolding respond
  respond-Conveys parsed req (complete r) = refl
  respond-Conveys parsed req (stream_head status head) =
      let r = stream_response http status head in
      let s = with_origin http (origin_of http req) r in
      let (a, b, f) =
        Keeps-trans r s (with_disposition http parsed req s)
          (with_origin-Keeps (origin_of http req) r) (with_disposition-Keeps parsed req s) in
      (
        a,
        b,
        λ k. elim (f k) [ inl e ↦ inl e | inr e ↦ inr (e ∙ stream_response-Carries status head k) ],
      )
