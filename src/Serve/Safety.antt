-- ===== src/Serve/Safety.antt =====
-- What the engine is asked to serve.
use sipi.Common.{
  ℕ, ok-injective, if◌then◌else◌, true, false, Option, some, Text, ◌≡◌, ◌⊎◌, inl, inr, refl, ap,
  sym, subst, ok, err, Option-cases, Result-cases, Bool-cases,
}
use mathlib.Core.Option.{some-injective}
use sipi.Http.{Http, Response}
use sipi.Preflight.{PreflightCache}
use sipi.Paths.Within.{Within, validate_resolved_path_lem}
use sipi.Iiif.Request.{
  ParsedRequest, RequestKind, iiif, info_json, knora_json, redirect, file_download,
}
use sipi.Access.{
  LuaEnv, ask_file_hook, read_reply, default_access, Request, Access, AppState, iiif_access,
  file_access, resolve, is_granted,
}
use sipi.Serve.{
  Action, reply, serve_image, serve_info, serve_file, serve_knora, act, acted, dispatch, is_file,
}

-- A file that the operating system found at the access's path, inside the image root.
abbrev pub Contained : (Text → Option Text) → AppState → Access → Text → Type 0
Contained canonicalize st access p =
    (canonicalize access.infile ≡ some p) × Within st.resolved_imgroot p

-- An action does what an access allows: the file is the one that the access names, and contained; an
-- image goes out only where the permission is allow or restrict.
abbrev pub Safe : {M : Type 0} → (Text → Option Text) → AppState → Access → Action M → Type 0
Safe canonicalize st access (reply r) = Unit
Safe canonicalize st access (serve_image p a) =
    Contained canonicalize st access p × (a ≡ access) × (is_granted access.permission ≡ true)
Safe canonicalize st access (serve_info p a) = Contained canonicalize st access p × (a ≡ access)
Safe canonicalize st access (serve_file p) =
    Contained canonicalize st access p × (is_granted access.permission ≡ true)
Safe canonicalize st access (serve_knora p) = Contained canonicalize st access p

module _ {M : Type 0} (http : Http M) (st : AppState) (canonicalize : Text → Option Text) where
  resolve-Contained :
      (access : Access) (p : Text)
      → resolve http canonicalize access.infile st.resolved_imgroot ≡ ok p
      → Contained canonicalize st access p
  unfolding resolve
  resolve-Contained access p h =
      elim (validate_resolved_path_lem canonicalize access.infile st.resolved_imgroot) [
        | inl (e, f) ↦ absurd (cc (rw (resolve, f) at h))
        | inr (q, e, inl (w, f)) ↦
            let same : q ≡ p = cc (rw (resolve, f) at h) in
            subst (Contained canonicalize st access) same (e, w)
        | inr (q, e, inr (w, f)) ↦ absurd (cc (rw (resolve, f) at h))
      ]

  pub act-Safe :
      (kind : RequestKind) (access : Access)
      → is_file kind ≡ false
      → Safe canonicalize st access (act http st canonicalize kind access)
  unfolding act
  act-Safe iiif access d = elim (Bool-cases (is_granted access.permission)) [
    | inr g ↦ rw (act, g) tt
    | inl g ↦ elim (Result-cases (resolve http canonicalize access.infile st.resolved_imgroot)) [
      | inl (r, e) ↦ rw (act, g, e) tt
      | inr (p, e) ↦ rw (act, g, e) (resolve-Contained access p e, refl, g)
    ]
  ]
  act-Safe info_json access d =
      elim (Result-cases (resolve http canonicalize access.infile st.resolved_imgroot)) [
        | inl (r, e) ↦ rw (act, e) tt
        | inr (p, e) ↦ rw (act, e) (resolve-Contained access p e, refl)
      ]
  act-Safe knora_json access d =
      elim (Result-cases (resolve http canonicalize access.infile st.resolved_imgroot)) [
        | inl (r, e) ↦ rw (act, e) tt
        | inr (p, e) ↦ rw (act, e) (resolve-Contained access p e)
      ]
  act-Safe redirect access d = tt
  act-Safe file_download access d = absurd (cc)

  act_file-Safe :
      (access : Access)
      → is_granted access.permission ≡ true
      → Safe canonicalize st access (act http st canonicalize file_download access)
  unfolding act
  act_file-Safe access g =
      elim (Result-cases (resolve http canonicalize access.infile st.resolved_imgroot)) [
        | inl (r, e) ↦ rw (act, e) tt
        | inr (p, e) ↦ rw (act, e) (resolve-Contained access p e, g)
      ]

module _ {M F : Type 0} (http : Http M) (st : AppState) (hash : Text → ℕ)
    (canonicalize : Text → Option Text) where
  ask_file_hook-is_granted :
      (parsed : ParsedRequest F) (req : Request) (lua : LuaEnv) (access : Access)
      → ask_file_hook http hash st parsed req lua ≡ ok access
      → is_granted access.permission ≡ true
  unfolding ask_file_hook
  ask_file_hook-is_granted parsed req lua access h =
      elim (Result-cases
        (read_reply http (lua.file_preflight req (default_access st parsed).infile))) [
          | inl (r, g) ↦ absurd (cc (rw (ask_file_hook, g) at h))
          | inr (outcome, g) ↦ elim (Bool-cases (is_granted outcome.permission)) [
            | inl x ↦
                subst (λ a. is_granted a.permission ≡ true)
                  (ok-injective (rw (ask_file_hook, g, x) at h)) x
            | inr x ↦ absurd (cc (rw (ask_file_hook, g, x) at h))
          ]
        ]

  file_access-is_granted :
      (parsed : ParsedRequest F) (req : Request) (access : Access)
      → file_access http hash st parsed req ≡ ok access
      → is_granted access.permission ≡ true
  unfolding file_access default_access
  file_access-is_granted parsed req access h = elim (Bool-cases st.has_file_preflight) [
    | inr e ↦
        subst (λ a. is_granted a.permission ≡ true) (ok-injective (rw (file_access, e) at h)) refl
    | inl e ↦ elim (Option-cases st.lua) [
      | inl f ↦ absurd (cc (rw (file_access, e, f) at h))
      | inr (lua, f) ↦ ask_file_hook-is_granted parsed req lua access (rw (file_access, e, f) at h)
    ]
  ]

  -- The access that a request has: what `file_access`, for a download, or `iiif_access` answers.
  abbrev pub HasAccess : Option PreflightCache → ParsedRequest F → Request → ℕ → ℕ → Access → Type 0
  HasAccess cache parsed req now later access =
      if is_file parsed.kind
      then file_access http hash st parsed req ≡ ok access
      else (cache' : Option PreflightCache) × (iiif_access http hash st parsed req cache now later
          ≡ some (ok access, cache'))

  pub dispatch-Safe :
      (cache cache' : Option PreflightCache) (parsed : ParsedRequest F) (req : Request)
      (now later : ℕ) (action : Action M)
      → dispatch http st hash canonicalize cache parsed req now later ≡ some (action, cache')
      → ((r : Response M) × (action ≡ reply r))
        ⊎ ((access : Access) × HasAccess cache parsed req now later access
            × Safe canonicalize st access action)
  unfolding dispatch acted
  dispatch-Safe cache cache' parsed req now later action h =
      elim (Bool-cases (is_file parsed.kind)) [
        | inl e ↦ elim (Result-cases (file_access http hash st parsed req)) [
          | inl (r, f) ↦
              inl (r, sym (ap (λ x. x.0) (some-injective _ _ (rw (dispatch, e, f) at h))))
          | inr (access, f) ↦
              let same = ap (λ x. x.0) (some-injective _ _ (rw (dispatch, e, f) at h)) in
              inr (
                access,
                rw e f,
                subst (Safe canonicalize st access) same (
                    act_file-Safe http st canonicalize access
                      (file_access-is_granted parsed req access f)),
              )
        ]
        | inr e ↦ elim (Option-cases (iiif_access http hash st parsed req cache now later)) [
          | inl f ↦ absurd (cc (rw (dispatch, e, f) at h))
          | inr ((err r, c), f) ↦
              inl (r, sym (ap (λ x. x.0) (some-injective _ _ (rw (dispatch, e, f) at h))))
          | inr ((ok access, c), f) ↦
              let same = ap (λ x. x.0) (some-injective _ _ (rw (dispatch, e, f) at h)) in
              inr (
                access,
                rw e (c, f),
                subst (Safe canonicalize st access) same
                    (act-Safe http st canonicalize parsed.kind access e),
              )
        ]
      ]
