-- ===== src/Iiif/Request/Kinds.antt =====
-- Which branch of the classifier makes which kind of request.
use sipi.Common.{
  List, ◌∷◌, ◌++◌, Bool, true, false, Option, none, some, Text, codes, ◌≡◌, ◌≢◌, refl, ap, ◌∙◌, sym,
  inl, inr, arith, Result, ok, err, ◌>>=◌, Option-cases, Bool-cases, ◌&&◌, split_once, ◌=t=◌,
  eq_iff, split_once_sound, ap₂,
}
use sipi.Iiif.Domain.{ParseError, Floats}
use sipi.Iiif.Grammar.{is_valid_qualform}
use sipi.Iiif.Grammar.Forms.{Quality, Format, qualform_text}
use sipi.Iiif.Grammar.Tails.{is_valid_qualform_sound}
use sipi.Iiif.Request.Images.{split_once-qualform}
use sipi.Iiif.Request.{
  RequestKind, iiif, info_json, knora_json, redirect, file_download, ParsedRequest, from_end,
  image_parts_ok, plain_prefix, under_identifier, as_image, as_redirect, classify_dotted, classify,
  build_prefix_strict, but_last,
}

-- The last segment that asks for a document, for each kind that is one.
abbrev pub document_name : RequestKind → Option Text
document_name iiif = none
document_name info_json = some (codes "info.json")
document_name knora_json = some (codes "knora.json")
document_name redirect = none
document_name file_download = some (codes "file")

pub and_true : {a b : Bool} → (a && b) ≡ true → (a ≡ true) × (b ≡ true)
and_true {a = true} {b = true} h = (refl, refl)
and_true {a = true} {b = false} h = absurd (cc)
and_true {a = false} h = absurd (cc)

dotted_name :
    (last body ext b e : Text)
    → split_once b'.' last ≡ some (body, ext)
    → (body =t= b && ext =t= e) ≡ true
    → last ≡ b ++ b'.' ∷ e
dotted_name last body ext b e s h =
    let (p, q) = and_true h in
    (split_once_sound b'.' last body ext s).0
    ∙ ap₂ (λ (x y : Text). x ++ b'.' ∷ y) ((eq_iff body b).0 p) ((eq_iff ext e).0 q)

-- A text with no dot is no quality and format.
no_dot-no_qualform : (t : Text) → split_once b'.' t ≡ none → is_valid_qualform t ≡ false
no_dot-no_qualform t n = elim (Bool-cases (is_valid_qualform t)) [
  | inr e ↦ e
  | inl e ↦
      let (q, f, s) = is_valid_qualform_sound t e in
      absurd (has_dot q f (ap (split_once b'.') (sym s) ∙ n))
]
  where
    has_dot : (q : Quality) (f : Format) → split_once b'.' (qualform_text q f) ≢ none
    has_dot q f e = cc (e, split_once-qualform q f)

module _ {F : Type 0} (fl : Floats F) where
  pub under_identifier-kind :
      (k : RequestKind) (parts : List Text) {r : ParsedRequest F}
      → under_identifier fl k parts ≡ ok r
      → (r.kind ≡ k) × (r.params ≡ none)
  unfolding under_identifier
  under_identifier-kind k parts h = named (plain_prefix parts 2) h
    where
      named :
          (m : Result ParseError Text) {r : ParsedRequest F}
          → (m >>= λ prefix.
              ok (record {
                kind = k;
                prefix = prefix;
                identifier = from_end parts 2;
                params = none;
              }))
            ≡ ok r
          → (r.kind ≡ k) × (r.params ≡ none)
      named (ok p) h = ground arith
      named (err e) h = absurd (cc)

  pub as_redirect-kind :
      (parts : List Text) {r : ParsedRequest F}
      → as_redirect fl parts ≡ ok r
      → (r.kind ≡ redirect) × (r.params ≡ none)
  unfolding as_redirect
  as_redirect-kind parts h = named (build_prefix_strict (but_last parts 1)) h
    where
      named :
          (m : Result ParseError Text) {r : ParsedRequest F}
          → (m >>= λ prefix. ok (record {
            kind = redirect;
            prefix = prefix;
            identifier = from_end parts 1;
            params = none;
          }))
            ≡ ok r
          → (r.kind ≡ redirect) × (r.params ≡ none)
      named (ok p) h = ground arith
      named (err e) h = absurd (cc)

  -- How a request came to be classified.
  pub data Classified (parts : List Text) (r : ParsedRequest F) : Type 0 where
    image :
        is_valid_qualform (from_end parts 1) ≡ true
        → image_parts_ok parts ≡ true
        → as_image fl parts ≡ ok r
        → Classified parts r
    document :
        (k : RequestKind)
        → document_name k ≡ some (from_end parts 1)
        → under_identifier fl k parts ≡ ok r
        → Classified parts r
    bare :
        image_parts_ok parts ≡ false
        → is_valid_qualform (from_end parts 1) ≡ false
        → as_redirect fl parts ≡ ok r
        → Classified parts r

  not_ok :
      {e : ParseError} {r : ParsedRequest F}
      → ◌≡◌ {A = Result ParseError (ParsedRequest F)} (err e) (ok r)
      → ⊥
  not_ok h = cc

  dotted_cases :
      (parts : List Text) (body ext : Text) {r : ParsedRequest F}
      → split_once b'.' (from_end parts 1) ≡ some (body, ext)
      → classify_dotted fl parts body ext ≡ ok r
      → Classified parts r
  unfolding classify_dotted
  dotted_cases parts body ext s h =
      elim (Bool-cases (is_valid_qualform (from_end parts 1) && image_parts_ok parts)) [
        | inl e ↦ let (p, q) = and_true e in image p q (rw (p, q, classify_dotted) at h)
        | inr e ↦ elim (Bool-cases (body =t= codes "info" && ext =t= codes "json")) [
          | inl i ↦
              document info_json
                (ap some (sym (dotted_name _ body ext (codes "info") (codes "json") s i)))
                (rw (e, i, classify_dotted) at h)
          | inr i ↦ elim (Bool-cases (body =t= codes "knora" && ext =t= codes "json")) [
            | inl k ↦
                document knora_json
                  (ap some (sym (dotted_name _ body ext (codes "knora") (codes "json") s k)))
                  (rw (e, i, k, classify_dotted) at h)
            | inr k ↦ elim (Bool-cases (is_valid_qualform (from_end parts 1))) [
              | inl q ↦ absurd (not_ok (rw (e, i, k, q, classify_dotted) at h))
              | inr q ↦ elim (Bool-cases (image_parts_ok parts)) [
                | inl m ↦ absurd (not_ok (rw (e, i, k, q, m, classify_dotted) at h))
                | inr m ↦ bare m q (rw (e, i, k, q, m, classify_dotted) at h)
              ]
            ]
          ]
        ]
      ]

  -- Every request that is accepted came by one of three ways.
  pub classify_cases :
      (parts : List Text) {r : ParsedRequest F} → classify fl parts ≡ ok r → Classified parts r
  unfolding classify
  classify_cases parts h = elim (Option-cases (split_once b'.' (from_end parts 1))) [
    | inr ((body, ext), s) ↦ dotted_cases parts body ext s (rw (s, classify) at h)
    | inl n ↦ elim (Bool-cases (from_end parts 1 =t= codes "file")) [
      | inl f ↦
          document file_download (ap some (sym ((eq_iff (from_end parts 1) (codes "file")).0 f)))
            (rw (n, f, classify) at h)
      | inr f ↦ elim (Bool-cases (image_parts_ok parts)) [
        | inl m ↦ absurd (not_ok (rw (n, f, m, classify) at h))
        | inr m ↦ bare m (no_dot-no_qualform (from_end parts 1) n) (rw (n, f, m, classify) at h)
      ]
    ]
  ]
