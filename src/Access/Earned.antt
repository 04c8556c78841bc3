-- ===== src/Access/Earned.antt =====
-- Where a decision comes from.
use sipi.Common.{
  ℕ, ◌+◌, ◌<◌, List, [], ◌∷◌, ◌++◌, true, some, Text, codes, ◌≡◌, ◌⊎◌, inl, inr, refl, ap, sym, ◌∙◌,
  subst, Lacks, ok, err, Option-cases, Result-cases, ok-injective,
}
use sipi.Http.{Http}
use sipi.Preflight.{CachedDecision, KeyBuf, PreflightCache, make_key, new, insert}
use sipi.Preflight.Keys.{IsHeader, key_bytes-injective}
use sipi.Preflight.History.{Call, getting, inserting, after, after-total, apply, Served, get-Served}
use sipi.Iiif.Request.{ParsedRequest}
use sipi.Access.{
  Request, PreflightOutcome, Access, AppState, access_from, key_of, cached, from_cache, ask_hook,
  fill_cache, through_cache, Answer, iiif_access,
}

-- A request whose path and cookie hold no NUL.
abbrev pub Guarded : {F : Type 0} → ParsedRequest F → Request → Type 0
Guarded parsed req =
    Lacks 0 parsed.prefix × Lacks 0 parsed.identifier × IsHeader (req.header_str (codes "cookie"))

-- Two requests for the same image with the same credentials.
abbrev pub SameClient :
    {F : Type 0} → ParsedRequest F → Request → ParsedRequest F → Request → Type 0
SameClient parsed req parsed' req' =
    (parsed.prefix ≡ parsed'.prefix)
    × (parsed.identifier ≡ parsed'.identifier)
    × (req.header_str (codes "cookie") ≡ req'.header_str (codes "cookie"))
    × (req.header_str (codes "authorization") ≡ req'.header_str (codes "authorization"))

module _ {M : Type 0} (F : Type 0) (http : Http M) (hash : Text → ℕ) (st : AppState) where
  -- The hook decided so on a guarded request with that key.
  pub record Decided (key : KeyBuf) (d : CachedDecision) : Type 0 where
    pub parsed : ParsedRequest F
    pub req : Request
    pub guarded : Guarded parsed req
    pub same_key : key ≡ key_of hash parsed req
    pub outcome : PreflightOutcome
    pub asked : ask_hook http hash st parsed req ≡ ok outcome
    pub same_decision : d ≡ cached outcome

  -- Every insertion among the calls stored what the hook decided.
  abbrev pub Honest : List Call → Type 0
  Honest [] = Unit
  Honest (getting key now ∷ xs) = Honest xs
  Honest (inserting key d now ∷ xs) = Decided key d × Honest xs

  -- The hook decided so when a request of the same client asked it, less than `ttl` before.
  abbrev pub Remembered : ℕ → List Call → ParsedRequest F → Request → ℕ → Access → Type 0
  Remembered ttl [] parsed req now access = ⊥
  Remembered ttl (getting key t ∷ xs) parsed req now access =
      Remembered ttl xs parsed req now access
  Remembered ttl (inserting key d t ∷ xs) parsed req now access =
      ((now < t + ttl)
        × (x : Decided key d) × SameClient x.parsed x.req parsed req
        × (access ≡ access_from x.outcome))
      ⊎ Remembered ttl xs parsed req now access

  same_client :
      (key : KeyBuf) (p q : ParsedRequest F) (r s : Request)
      → Guarded p r
      → Guarded q s
      → key ≡ key_of hash p r
      → key.bytes ≡ (key_of hash q s).bytes
      → SameClient p r q s
  unfolding key_of make_key
  same_client key p q r s g h e f =
      key_bytes-injective p.prefix q.prefix p.identifier q.identifier
        (r.header_str (codes "cookie")) (s.header_str (codes "cookie"))
        (r.header_str (codes "authorization")) (s.header_str (codes "authorization")) g.0 h.0 g.1
        h.1 g.2 h.2 (sym (ap (λ k. k.bytes) e) ∙ f)

  Served-Remembered :
      (ttl : ℕ) (xs : List Call) (parsed : ParsedRequest F) (req : Request) (now : ℕ)
      (d : CachedDecision)
      → Guarded parsed req
      → Honest xs
      → Served ttl xs (key_of hash parsed req) now d
      → Remembered ttl xs parsed req now (access_from (from_cache d))
  Served-Remembered ttl [] parsed req now d g h s = s
  Served-Remembered ttl (getting key t ∷ xs) parsed req now d g h s =
      Served-Remembered ttl xs parsed req now d g h s
  Served-Remembered ttl (inserting key e t ∷ xs) parsed req now d g h (inr s) =
      inr (Served-Remembered ttl xs parsed req now d g h.1 s)
  Served-Remembered ttl (inserting key e t ∷ xs) parsed req now d g h (inl (same, e_d, fresh)) =
      inl (
        fresh,
        h.0,
        same_client key h.0.parsed parsed h.0.req req h.0.guarded g h.0.same_key same,
        ap (λ d. access_from (from_cache d)) (sym e_d ∙ h.0.same_decision),
      )

  -- What `iiif_access` answers: the decision of the hook, asked on this request, or one remembered.
  abbrev pub Earned : ℕ → List Call → ParsedRequest F → Request → ℕ → Access → Type 0
  Earned ttl xs parsed req now access =
      ((o : PreflightOutcome) × (ask_hook http hash st parsed req ≡ ok o)
        × (access ≡ access_from o))
      ⊎ Remembered ttl xs parsed req now access

  abbrev pub Answers :
      ℕ → PreflightCache → List Call → ParsedRequest F → Request → ℕ → ℕ → PreflightCache → Type 0
  Answers ttl c xs parsed req now later c' =
      (answer : Answer http Access) × (c'' : PreflightCache) × (ys : List Call) × (iiif_access http
          hash st parsed req (some c') now later
        ≡ some (answer, some c''))
      × (after c (ys ++ xs) ≡ some c'')
      × Honest (ys ++ xs)
      × ((access : Access) → answer ≡ ok access → Earned ttl xs parsed req now access)

  -- After any calls of the cache that stored only what the hook decided, by any requests in any order, a
  -- request through the cache does not panic and calls the cache in that way itself, and an
  -- access that it gets is what the hook decides on this request, or decided less than `ttl` before for a
  -- request with the same prefix, identifier, cookie and authorization. The requests hold no NUL.
  pub iiif_access-Earned :
      (slots ttl : ℕ) (c : PreflightCache) (xs : List Call) (parsed : ParsedRequest F)
      (req : Request) (now later : ℕ)
      → new slots ttl ≡ some c
      → st.has_preflight ≡ true
      → Honest xs
      → Guarded parsed req
      → (c' : PreflightCache) × (after c xs ≡ some c') × Answers ttl c xs parsed req now later c'
  unfolding iiif_access through_cache fill_cache after
  iiif_access-Earned slots ttl c xs parsed req now later n p h g =
      let key = key_of hash parsed req in
      let (c₁, o, c₂, e, f, served) = get-Served slots ttl c xs key now n in
      let looked : after c (getting key now ∷ xs) ≡ some c₂ = rw (after, e, apply, f) refl in
      (
        c₁,
        e,
        elim (Option-cases o) [
          | inr (d, hit) ↦ (
            ok (access_from (from_cache d)),
            c₂,
            getting key now ∷ [],
            rw (iiif_access, through_cache, p, f, hit) refl,
            looked,
            h,
            λ access a. inr (
                subst (Remembered ttl xs parsed req now) (ok-injective a)
                  (Served-Remembered ttl xs parsed req now d g h (served d hit))),
          )
          | inl miss ↦ elim (Result-cases (ask_hook http hash st parsed req)) [
            | inl (r, bad) ↦ (
              err r,
              c₂,
              getting key now ∷ [],
              rw (iiif_access, through_cache, p, f, miss, bad) refl,
              looked,
              h,
              λ access a. absurd (cc),
            )
            | inr (outcome, good) ↦
                let zs : List Call = inserting key (cached outcome) later ∷ getting key now ∷ [] in
                let (c₃, i) = after-total slots ttl c (zs ++ xs) n in
                let stored : insert c₂ key (cached outcome) later ≡ some c₃ =
                  rw (after, looked) at i in
                (
                  ok (access_from outcome),
                  c₃,
                  zs,
                  rw (iiif_access, through_cache, fill_cache, p, f, miss, good, stored) refl,
                  i,
                  (
                    record {
                      parsed = parsed;
                      req = req;
                      guarded = g;
                      same_key = refl;
                      outcome = outcome;
                      asked = good;
                      same_decision = refl;
                    },
                    h,
                  ),
                  λ access a. inl (outcome, good, sym (ok-injective a)),
                )
          ]
        ],
      )
