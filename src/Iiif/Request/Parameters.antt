-- ===== src/Iiif/Request/Parameters.antt =====
-- The parameters of an accepted request: there exactly for an image, with capped dimensions.
use sipi.Common.{
  ◌≤◌, List, [], ◌∷◌, none, some, Text, ◌≡◌, ◌≢◌, refl, ap, ◌∙◌, sym, Result, ok, err, ◌⊎◌, inl,
  inr,
}
use sipi.Iiif.Domain.{ParseError, IiifParams, Floats}
use sipi.Iiif.Params.{dim_cap, parse_iiif_params}
use sipi.Iiif.Params.Capped.{parse_iiif_params-capped}
use sipi.Iiif.Request.{
  iiif, ParsedRequest, from_end, plain_prefix, as_image, classify, parse_request, tokenize,
}
use sipi.Iiif.Request.Kinds.{
  Classified, image, document, bare, classify_cases, document_name, under_identifier-kind,
  as_redirect-kind,
}
use sipi.Iiif.Request.Sound.{bind_ok}

module _ {F : Type 0} (fl : Floats F) where
  -- An image request has parameters whose dimensions are capped; another request has none.
  abbrev pub HasParams : ParsedRequest F → Type 0
  HasParams r =
      ((r.kind ≡ iiif)
        × ((p : IiifParams F) × (r.params ≡ some p)
            × (p.size_nx ≤ dim_cap)
            × (p.size_ny ≤ dim_cap)))
      ⊎ ((r.kind ≢ iiif) × (r.params ≡ none))

  as_image-params :
      (parts : List Text) {r : ParsedRequest F}
      → as_image fl parts ≡ ok r
      → (r.kind ≡ iiif)
        × ((p : IiifParams F) × (r.params ≡ some p) × (p.size_nx ≤ dim_cap) × (p.size_ny ≤ dim_cap))
  unfolding as_image
  as_image-params parts h =
      let (pre, _, f) = bind_ok (plain_prefix parts 5) _ h in
      let (p, e, g) =
        bind_ok
          (parse_iiif_params fl (from_end parts 4) (from_end parts 3) (from_end parts 2)
            (from_end parts 1))
          _ f in
      let (nx, ny) = parse_iiif_params-capped fl _ _ _ _ p e in (cc, (p, cc, nx, ny))

  classify-params :
      (parts : List Text) (r : ParsedRequest F) → classify fl parts ≡ ok r → HasParams r
  classify-params parts r h = of_cases (classify_cases fl parts h)
    where
      of_cases : Classified fl parts r → HasParams r
      of_cases (image q m a) = inl (as_image-params parts a)
      of_cases (document d n u) =
          let (k, p) = under_identifier-kind fl d parts u in
          inr ((λ e. cc (n, ap document_name (sym k ∙ e))), p)
      of_cases (bare m q a) = let (k, p) = as_redirect-kind fl parts a in inr ((λ e. cc (k, e)), p)

  -- An accepted request has segments, and is their classification.
  pub parse_request-classify :
      (urldecode : Text → Text) (uri : Text) {r : ParsedRequest F}
      → parse_request fl urldecode uri ≡ ok r
      → (tokenize urldecode uri ≢ []) × (classify fl (tokenize urldecode uri) ≡ ok r)
  unfolding parse_request
  parse_request-classify urldecode uri {r} h = of_tokens (tokenize urldecode uri) refl
    where
      of_tokens :
          (ts : List Text)
          → tokenize urldecode uri ≡ ts
          → (tokenize urldecode uri ≢ []) × (classify fl (tokenize urldecode uri) ≡ ok r)
      of_tokens [] e = absurd (no_tokens (rw (e, parse_request) at h))
        where
          no_tokens :
              {x : ParseError} → ◌≡◌ {A = Result ParseError (ParsedRequest F)} (err x) (ok r) → ⊥
          no_tokens h = cc
      of_tokens (t ∷ ts) e = rw e ((λ x. cc), rw (e, parse_request) at h)

  -- Whatever the URI.
  pub parse_request-params :
      (urldecode : Text → Text) (uri : Text) (r : ParsedRequest F)
      → parse_request fl urldecode uri ≡ ok r
      → HasParams r
  parse_request-params urldecode uri r h =
      classify-params (tokenize urldecode uri) r (parse_request-classify urldecode uri h).1
