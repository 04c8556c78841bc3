-- ===== src/Serve/Gate.antt =====
-- Which requests reach the engine.
use sipi.Common.{
  [], ◌∷◌, Bool, true, false, ◌&&◌, ◌||◌, Text, ◌≡◌, ◌↔◌, inl, inr, refl, ap, ◌∙◌, subst, arith,
  Lacks, ok, Result-cases, ok-injective, Bool-cases, ◌==◌,
}
use sipi.Http.{Http}
use sipi.Paths.{contains_traversal}
use sipi.Iiif.Domain.{Floats}
use sipi.Iiif.Request.{ParsedRequest, parse_request}
use sipi.Access.{Request, AppState}
use sipi.Serve.{checked, admitted, has_nul, is_redirect}

pub has_nul-Lacks : (s : Text) → has_nul s ≡ false → Lacks 0 s
unfolding has_nul
has_nul-Lacks [] h = tt
has_nul-Lacks (c ∷ s) h =
    let e : (c == 0) ≡ false = ground (arith, h) in
    let f : has_nul s ≡ false = ground (arith, h) in ((λ z. cc (rw z at e)), has_nul-Lacks s f)

Lacks-has_nul : (s : Text) → Lacks 0 s → has_nul s ≡ false
unfolding has_nul
Lacks-has_nul [] h = refl
Lacks-has_nul (c ∷ s) h = elim (Bool-cases (c == 0)) [
  | inl e ↦ absurd (h.0 (ground (arith, e)))
  | inr e ↦ rw (has_nul, e) (Lacks-has_nul s h.1)
]

or_false : (a b : Bool) → a || b ≡ false → (a ≡ false) × (b ≡ false)
or_false a b h = (ground (arith, h), ground (arith, h))

module _ {M F : Type 0} (http : Http M) (st : AppState) (fl : Floats F)
    (urldecode : Text → Text) where
  -- The server is ready, and the request's path parses to a request for the engine, the names of which
  -- hold no NUL and do not climb the file tree.
  pub record Acceptable (req : Request) (parsed : ParsedRequest F) : Type 0 where
    pub ready : st.ready ≡ true
    pub parses : parse_request fl urldecode req.path ≡ ok parsed
    pub identifier_clean : Lacks 0 parsed.identifier
    pub prefix_clean : Lacks 0 parsed.prefix
    pub identifier_stays : contains_traversal parsed.identifier ≡ false
    pub prefix_stays : (st.prefix_as_path && contains_traversal parsed.prefix) ≡ false
    pub served : is_redirect parsed.kind ≡ false

  checked-Acceptable :
      (req : Request) (parsed : ParsedRequest F)
      → checked http st fl urldecode req ≡ ok parsed
      → Acceptable req parsed
  unfolding checked
  checked-Acceptable req parsed h = elim (Bool-cases st.ready) [
    | inr e ↦ absurd (cc (rw (checked, e) at h))
    | inl e ↦ elim (Result-cases (parse_request fl urldecode req.path)) [
      | inl (r, f) ↦ absurd (cc (rw (checked, e, f) at h))
      | inr (q, f) ↦ elim (Bool-cases (has_nul q.identifier || has_nul q.prefix)) [
        | inl g ↦ absurd (cc (rw (checked, e, f, g) at h))
        | inr g ↦
            elim (Bool-cases (
              contains_traversal q.identifier
              || (st.prefix_as_path && contains_traversal q.prefix))) [
                | inl i ↦ absurd (cc (rw (checked, e, f, g, i) at h))
                | inr i ↦ elim (Bool-cases (is_redirect q.kind)) [
                  | inl j ↦ absurd (cc (rw (checked, e, f, g, i, j) at h))
                  | inr j ↦
                      subst (Acceptable req) (ok-injective (rw (checked, e, f, g, i, j) at h))
                        (record {
                          ready = e;
                          parses = f;
                          identifier_clean = has_nul-Lacks q.identifier (or_false _ _ g).0;
                          prefix_clean = has_nul-Lacks q.prefix (or_false _ _ g).1;
                          identifier_stays = (or_false _ _ i).0;
                          prefix_stays = (or_false _ _ i).1;
                          served = j;
                        })
                ]
              ]
      ]
    ]
  ]

  Acceptable-checked :
      (req : Request) (parsed : ParsedRequest F)
      → Acceptable req parsed
      → checked http st fl urldecode req ≡ ok parsed
  unfolding checked
  Acceptable-checked req parsed a =
      rw
        (
          checked,
          a.ready,
          a.parses,
          Lacks-has_nul parsed.identifier a.identifier_clean,
          Lacks-has_nul parsed.prefix a.prefix_clean,
          a.identifier_stays,
          a.prefix_stays,
          a.served,
        )
        refl

  -- A request goes on to the engine exactly if the pool admits it, the server is ready, and its path parses
  -- to a request other than a redirect, whose identifier and prefix hold no NUL and do not climb the
  -- file tree, the prefix only where it is part of the path.
  pub admitted-Acceptable :
      (req : Request) (permit : Bool) (parsed : ParsedRequest F)
      → (admitted http st fl urldecode req permit ≡ ok parsed)
        ↔ ((permit ≡ true) × Acceptable req parsed)
  unfolding admitted
  admitted-Acceptable req permit parsed = (forth, back)
    where
      forth :
          admitted http st fl urldecode req permit ≡ ok parsed
          → (permit ≡ true) × Acceptable req parsed
      forth h = elim (Result-cases (checked http st fl urldecode req)) [
        | inl (r, e) ↦ absurd (cc (rw (admitted, e) at h))
        | inr (q, e) ↦ elim (Bool-cases permit) [
          | inl p ↦ (
            p,
            checked-Acceptable req parsed (e ∙ ap ok (ok-injective (rw (admitted, e, p) at h))),
          )
          | inr p ↦ absurd (cc (rw (admitted, e, p) at h))
        ]
      ]

      back :
          (permit ≡ true) × Acceptable req parsed
          → admitted http st fl urldecode req permit ≡ ok parsed
      back (p, a) = rw (admitted, Acceptable-checked req parsed a, p) refl
