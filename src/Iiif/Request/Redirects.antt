-- ===== src/Iiif/Request/Redirects.antt =====
-- What the URI of a redirected request looks like.
use sipi.Common.{
  ◌≤◌, List, [], ◌∷◌, ◌++◌, Bool, true, false, none, Text, ◌≡◌, ◌≢◌, refl, ap, ◌∙◌, sym, inl, inr,
  arith, ok, Bool-cases, length, join, is_empty, append_assoc, if◌then◌else◌,
}
use sipi.Iiif.Domain.{Floats}
use sipi.Iiif.Grammar.{is_valid_qualform}
use sipi.Iiif.Request.{
  redirect, ParsedRequest, from_end, image_parts_ok, as_redirect, classify, prefix_from,
  build_prefix_strict, malformed,
}
use sipi.Iiif.Request.Ends.{from_end-append, but_last-append, before_last-Split}
use sipi.Iiif.Request.Kinds.{
  Classified, image, document, bare, classify_cases, document_name, under_identifier-kind,
}
use sipi.Iiif.Request.Sound.{as_image-kind, ok_injective}

abbrev pub IsFilled : Text → Type 0
IsFilled t = is_empty t ≡ false

-- The prefix so far, and the parts to come.
abbrev join_from : Text → List Text → Text
join_from p [] = p
join_from p (t ∷ ts) = join b'/' (p ∷ t ∷ ts)

join_from-cons :
    (p t : Text) (ts : List Text) → join_from (p ++ b'/' ∷ t) ts ≡ p ++ b'/' ∷ join b'/' (t ∷ ts)
join_from-cons p t [] = refl
join_from-cons p t (u ∷ us) = append_assoc p (b'/' ∷ t) (b'/' ∷ join b'/' (u ∷ us))

append-IsFilled : (p t : Text) → IsFilled p → IsFilled (p ++ t)
append-IsFilled [] t h = absurd (cc)
append-IsFilled (c ∷ p) t h = refl

abbrev pub all_filled : List Text → Bool
all_filled [] = true
all_filled (t ∷ ts) = if is_empty t then false else all_filled ts

join_from-step :
    (p t : Text) (ts : List Text)
    → join_from ((p ++ b'/' ∷ []) ++ t) ts ≡ p ++ b'/' ∷ join b'/' (t ∷ ts)
join_from-step p t ts =
    ap (λ (q : Text). join_from q ts) (append_assoc p (b'/' ∷ []) t) ∙ join_from-cons p t ts

prefix_from_lem :
    (p : Text) (ts : List Text)
    → IsFilled p
    → prefix_from p ts ≡ (if all_filled ts then ok (join_from p ts) else malformed)
unfolding prefix_from
prefix_from_lem p [] f = refl
prefix_from_lem p (t ∷ ts) f = elim (Bool-cases (is_empty t)) [
  | inl e ↦ rw e refl
  | inr e ↦
      rw (e, f)
        (prefix_from_lem ((p ++ b'/' ∷ []) ++ t) ts
            (append-IsFilled (p ++ b'/' ∷ []) t (append-IsFilled p (b'/' ∷ []) f))
          ∙ ap (λ (q : Text). if all_filled ts then ok q else malformed) (join_from-step p t ts))
]

join_from-join : (t : Text) (ts : List Text) → join_from t ts ≡ join b'/' (t ∷ ts)
join_from-join t [] = refl
join_from-join t (u ∷ us) = refl

-- The strict prefix is the join of the parts, and is refused where one of them is empty.
pub build_prefix_strict_lem :
    (ts : List Text)
    → build_prefix_strict ts ≡ (if all_filled ts then ok (join b'/' ts) else malformed)
unfolding build_prefix_strict
build_prefix_strict_lem [] = refl
build_prefix_strict_lem (t ∷ ts) = elim (Bool-cases (is_empty t)) [
  | inl e ↦ rw e refl
  | inr e ↦ rw e (
      prefix_from_lem t ts e
      ∙ ap (λ (q : Text). if all_filled ts then ok q else malformed) (join_from-join t ts))
]

module _ {F : Type 0} (fl : Floats F) where
  abbrev pub redirect_to : List Text → Text → ParsedRequest F
  redirect_to front id = record {
    kind = redirect;
    prefix = join b'/' front;
    identifier = id;
    params = none;
  }

  as_redirect-append :
      (front : List Text) (id : Text)
      → as_redirect fl (front ++ id ∷ [])
        ≡ (if all_filled front then ok (redirect_to front id) else malformed)
  unfolding as_redirect
  as_redirect-append front id = rw (but_last-append front (id ∷ []) 1 refl) (
      rw (from_end-append front (id ∷ []) 0 1 refl) (
        rw (build_prefix_strict_lem front)
          (elim (Bool-cases (all_filled front)) [ inl e ↦ rw e refl | inr e ↦ rw e refl ])))

  -- A request is redirected only if no part of its prefix is empty and it does not look like an
  -- image request: its last segment is no quality and format, and the three before it are not all
  -- valid.
  pub redirect_sound :
      (parts : List Text) (r : ParsedRequest F)
      → parts ≢ []
      → classify fl parts ≡ ok r
      → r.kind ≡ redirect
      → (front : List Text) × (id : Text) × (parts ≡ front ++ id ∷ [])
        × (r ≡ redirect_to front id)
        × (all_filled front ≡ true)
        × (image_parts_ok parts ≡ false)
        × (is_valid_qualform id ≡ false)
  redirect_sound parts r filled h k = of_cases (classify_cases fl parts h)
    where
      of_back :
          (front back : List Text)
          → length back ≡ 1
          → parts ≡ front ++ back
          → image_parts_ok parts ≡ false
          → is_valid_qualform (from_end parts 1) ≡ false
          → as_redirect fl parts ≡ ok r
          → (front : List Text) × (id : Text) × (parts ≡ front ++ id ∷ [])
            × (r ≡ redirect_to front id)
            × (all_filled front ≡ true)
            × (image_parts_ok parts ≡ false)
            × (is_valid_qualform id ≡ false)
      of_back front (id ∷ []) l e m q a =
          let made = sym (as_redirect-append front id) ∙ ap (as_redirect fl) (sym e) ∙ a in
          let (ids, full) = of_filled front id made in
          (
            front,
            id,
            e,
            ids,
            full,
            m,
            sym (
                  ap is_valid_qualform (
                    ap (λ (ps : List Text). from_end ps 1) e
                    ∙ from_end-append front (id ∷ []) 0 1 refl))
                ∙ q,
          )
        where
          of_filled :
              (front : List Text) (id : Text)
              → (if all_filled front then ok (redirect_to front id) else malformed) ≡ ok r
              → (r ≡ redirect_to front id) × (all_filled front ≡ true)
          of_filled front id h = elim (Bool-cases (all_filled front)) [
            | inl f ↦ (sym (ok_injective fl (rw f at h)), f)
            | inr f ↦ absurd (not_ok (rw f at h))
          ]
            where
              not_ok : malformed ≡ ok r → ⊥
              not_ok h = cc
      of_back front [] l e m q a = absurd (omega arith)
      of_back front (b ∷ c ∷ d) l e m q a = absurd (omega arith)

      of_cases :
          Classified fl parts r
          → (front : List Text) × (id : Text) × (parts ≡ front ++ id ∷ [])
            × (r ≡ redirect_to front id)
            × (all_filled front ≡ true)
            × (image_parts_ok parts ≡ false)
            × (is_valid_qualform id ≡ false)
      of_cases (image q m a) = let same = as_image-kind fl parts a in absurd (cc)
      of_cases (document d n u) =
          let same : d ≡ redirect = sym (under_identifier-kind fl d parts u).0 ∙ k in
          absurd (cc (n, ap document_name same))
      of_cases (bare m q a) =
          let s = before_last-Split 1 parts (nonempty parts filled) in
          of_back s.front s.back s.length_back s.whole m q a
        where
          nonempty : (ps : List Text) → ps ≢ [] → 1 ≤ length ps
          nonempty [] h = absurd (h refl)
          nonempty (t ∷ ts) h = omega arith
