-- ===== src/Serve/Answers.antt =====
-- The handler with the preflight cache, and the calls of the engine with the sink.
use sipi.Common.{
  ℕ, List, [], ◌++◌, Bool, true, false, Option, some, Text, codes, ◌≡◌, ◌⊎◌, inl, inr, refl, Result,
  ok, err, Result-cases, Bool-cases,
}
use sipi.Http.{Http, Response}
use sipi.Sink.{World, BodyItem}
use sipi.Preflight.{PreflightCache, new}
use sipi.Preflight.Keys.{IsHeader}
use sipi.Preflight.History.{Call, after, after-total}
use sipi.Iiif.Domain.{Floats}
use sipi.Iiif.Request.{ParsedRequest, file_download}
use sipi.Access.{Request, Access, AppState, Answer, iiif_access, file_access, default_access}
use sipi.Access.Earned.{Honest, Guarded, Earned, iiif_access-Earned}
use sipi.Serve.{Action, reply, acted, admitted, dispatch, is_file}
use sipi.Serve.Gate.{admitted-Acceptable}
use sipi.Serve.Safety.{Safe, act-Safe}
use sipi.Serve.Seam.{Seam, Host}
use sipi.Serve.Calls.{perform}
use sipi.Serve.Handler.{handle, respond}
use sipi.Serve.Conveyed.{committed, perform-committed, Conveys, respond-Conveys}

module _ {M F R : Type 0} (http : Http M) (fl : Floats F) (urldecode : Text → Text)
    (hash : Text → ℕ) (canonicalize : Text → Option Text) (seam : Seam F) (host : Host R)
    (st : AppState) where
  abbrev Guard : Request → Type 0
  Guard req = IsHeader (req.header_str (codes "cookie"))

  -- What a request through the cache leads to.
  abbrev pub Leads : ℕ → List Call → ParsedRequest F → Request → ℕ → Action M → Type 0
  Leads ttl xs parsed req now action =
      ((r : Response M) × (action ≡ reply r))
      ⊎ ((access : Access) × Earned F http hash st ttl xs parsed req now access
          × Safe canonicalize st access action)

  acted-Leads :
      (ttl : ℕ) (xs : List Call) (parsed : ParsedRequest F) (req : Request) (now : ℕ)
      (answer : Answer http Access)
      → is_file parsed.kind ≡ false
      → ((access : Access)
          → answer ≡ ok access
          → Earned F http hash st ttl xs parsed req now access)
      → Leads ttl xs parsed req now (acted http st canonicalize parsed.kind answer)
  unfolding acted
  acted-Leads ttl xs parsed req now (err r) k f = inl (r, refl)
  acted-Leads ttl xs parsed req now (ok access) k f =
      inr (access, f access refl, act-Safe http st canonicalize parsed.kind access k)

  -- With a hook for images, a request other than a download that passes the gate and whose cookie holds no
  -- NUL, after any calls of the cache that stored only what the hook decided: nothing panics, and the calls
  -- of the cache that are made store only what the hook decided, too. What is done for the request is a
  -- response, or the file that the access names, which lies in the image root, is served: as an image only if
  -- the permission is allow or restrict, in info.json and knora.json whatever the permission. That access is
  -- what the hook decides on this request, or decided less than `ttl` before for a request with the same
  -- prefix, identifier, cookie and authorization.
  pub dispatch-Earned :
      (slots ttl : ℕ) (c : PreflightCache) (xs : List Call) (req : Request) (permit : Bool)
      (parsed : ParsedRequest F) (now later : ℕ)
      → new slots ttl ≡ some c
      → st.has_preflight ≡ true
      → Honest F http hash st xs
      → IsHeader (req.header_str (codes "cookie"))
      → admitted http st fl urldecode req permit ≡ ok parsed
      → is_file parsed.kind ≡ false
      → (c' : PreflightCache) × (action : Action M) × (c'' : PreflightCache) × (ys : List Call)
        × (after c xs ≡ some c')
        × (dispatch http st hash canonicalize (some c') parsed req now later
            ≡ some (action, some c''))
        × (after c (ys ++ xs) ≡ some c'')
        × Honest F http hash st (ys ++ xs)
        × Leads ttl xs parsed req now action
  unfolding dispatch
  dispatch-Earned slots ttl c xs req permit parsed now later n p h g a k =
      let (_, ok_request) = (admitted-Acceptable http st fl urldecode req permit parsed).0 a in
      let guarded : Guarded parsed req =
        (ok_request.prefix_clean, ok_request.identifier_clean, g) in
      let (c', e, (answer, c'', ys, f, i, j, earned)) =
        iiif_access-Earned F http hash st slots ttl c xs parsed req now later n p h guarded in
      (
        c',
        acted http st canonicalize parsed.kind answer,
        c'',
        ys,
        e,
        rw (dispatch, k, f) refl,
        i,
        j,
        acted-Leads ttl xs parsed req now answer k earned,
      )

  -- What the handler answers a request that the gate lets through: the response conveys what the action that
  -- is dispatched commits to.
  abbrev pub Handled :
      PreflightCache
      → World
      → ParsedRequest F
      → Request
      → ℕ
      → ℕ
      → Response M
      → List BodyItem
      → PreflightCache
      → Type 0
  Handled c' world parsed req now later response items c'' =
      (action : Action M) × (dispatch http st hash canonicalize (some c') parsed req now later
        ≡ some (action, some c''))
      × Conveys http seam host (committed http seam host world parsed req action) response
      × (items ≡ (perform http seam host world parsed req action).items)

  -- The gate answers with a response of its own, or lets the request through.
  abbrev pub Answers :
      Result (Response M) (ParsedRequest F)
      → PreflightCache
      → World
      → Request
      → ℕ
      → ℕ
      → Response M
      → List BodyItem
      → PreflightCache
      → Type 0
  Answers (err r) c' world req now later response items c'' =
      (response ≡ r) × (items ≡ []) × (c'' ≡ c')
  Answers (ok parsed) c' world req now later response items c'' =
      Handled c' world parsed req now later response items c''

  abbrev pub Answered :
      PreflightCache → List Call → World → Bool → Request → ℕ → ℕ → PreflightCache → Type 0
  Answered c xs world permit req now later c' =
      (response : Response M) × (items : List BodyItem) × (c'' : PreflightCache) × (ys : List Call)
      × (handle http fl urldecode hash canonicalize seam host st world permit (some c') req now
            later
          ≡ some (response, items, some c''))
      × Answers (admitted http st fl urldecode req permit) c' world req now later response items c''
      × (after c (ys ++ xs) ≡ some c'')
      × Honest F http hash st (ys ++ xs)

  handle-dispatch :
      (c : PreflightCache) (xs ys : List Call) (world : World) (permit : Bool) (req : Request)
      (now later : ℕ) (c' c'' : PreflightCache) (parsed : ParsedRequest F) (action : Action M)
      → admitted http st fl urldecode req permit ≡ ok parsed
      → dispatch http st hash canonicalize (some c') parsed req now later ≡ some (action, some c'')
      → after c (ys ++ xs) ≡ some c''
      → Honest F http hash st (ys ++ xs)
      → Answered c xs world permit req now later c'
  unfolding handle
  handle-dispatch c xs ys world permit req now later c' c'' parsed action a d e h =
      let s = perform http seam host world parsed req action in
      let conveys : Conveys http seam host (committed http seam host world parsed req action)
          (respond http parsed req s.outcomes) =
        rw (perform-committed http seam host world parsed req action) (
          respond-Conveys http seam host parsed req
            (committed http seam host world parsed req action)) in
      (
        respond http parsed req s.outcomes,
        s.items,
        c'',
        ys,
        rw (handle, a, d) refl,
        rw a (action, d, conveys, refl),
        e,
        h,
      )

  -- Whatever the request, with a cookie that holds no NUL, and the engine, whether the pool admits it, and after
  -- any calls of the cache that stored only what the hook decided, nothing panics: a request that the gate refuses gets the gate's response
  -- and leaves the cache as it is; any other gets a response that conveys what is done for it, which is the
  -- whole response of the shell, or what the engine commits to in its calls up to the first with a body:
  -- the whole response, an error where the engine reports one, or a streamed body with the status and the
  -- headers that the engine has set, those of the shell aside. The handler's own calls of the cache store only
  -- what the hook decided, too.
  pub handle-Answered :
      (slots ttl : ℕ) (c : PreflightCache) (xs : List Call) (world : World) (permit : Bool)
      (req : Request) (now later : ℕ)
      → new slots ttl ≡ some c
      → Honest F http hash st xs
      → IsHeader (req.header_str (codes "cookie"))
      → (c' : PreflightCache) × (after c xs ≡ some c') × Answered c xs world permit req now later c'
  unfolding handle dispatch iiif_access
  handle-Answered slots ttl c xs world permit req now later n h g =
      let (c', e) = after-total slots ttl c xs n in
      elim (Result-cases (admitted http st fl urldecode req permit)) [
        | inl (r, a) ↦ (c', e, (r, [], c', [], rw (handle, a) refl, rw a (refl, refl, refl), e, h))
        | inr (parsed, a) ↦ elim (Bool-cases (is_file parsed.kind)) [
          | inl k ↦ (
            c',
            e,
            handle-dispatch c xs [] world permit req now later c' c' parsed
                (acted http st canonicalize file_download (file_access http hash st parsed req)) a
                (rw (dispatch, k) refl) e h,
          )
          | inr k ↦ elim (Bool-cases st.has_preflight) [
            | inr p ↦ (
              c',
              e,
              handle-dispatch c xs [] world permit req now later c' c' parsed
                  (acted http st canonicalize parsed.kind (ok (default_access st parsed))) a
                  (rw (dispatch, k, iiif_access, p) refl) e h,
            )
            | inl p ↦
                let (d, action, c'', ys, f, i, j, l, m) =
                  dispatch-Earned slots ttl c xs req permit parsed now later n p h g a k in
                (
                  d,
                  f,
                  handle-dispatch c xs ys world permit req now later d c'' parsed action a i j l,
                )
          ]
        ]
      ]
