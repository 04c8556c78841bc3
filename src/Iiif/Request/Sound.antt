-- ===== src/Iiif/Request/Sound.antt =====
-- What the URI of an accepted request looks like: its segments, and how the answer is made of them.
use sipi.Common.{
  ℕ, ◌≤◌, List, [], ◌∷◌, ◌++◌, true, none, some, Text, ◌≡◌, refl, ap, ◌∙◌, sym, arith, Result, ok,
  err, ◌>>=◌, length, join, subst,
}
use sipi.Iiif.Domain.{ParseError, Floats}
use sipi.Iiif.Grammar.{is_valid_region, is_valid_size, is_valid_rotation, is_valid_qualform}
use sipi.Iiif.Grammar.Regions.{is_valid_region_sound}
use sipi.Iiif.Grammar.Sizes.{is_valid_size_sound}
use sipi.Iiif.Grammar.Tails.{is_valid_rotation_sound, is_valid_qualform_sound}
use sipi.Iiif.Params.{parse_iiif_params}
use sipi.Iiif.Params.Sizes.{to_option}
use sipi.Iiif.Params.Images.{Image, IsImage, image_meaning}
use sipi.Iiif.Request.{
  RequestKind, iiif, ParsedRequest, from_end, image_parts_ok, plain_prefix, under_identifier,
  as_image, classify,
}
use sipi.Iiif.Request.Ends.{from_end-append, plain_prefix-append, before_last-Split}
use sipi.Iiif.Request.Images.{image_parts, with_params, classify-image_parts}
use sipi.Iiif.Request.Kinds.{
  Classified, image, document, bare, classify_cases, document_name, under_identifier-kind,
  as_redirect-kind,
}

plain_prefix-ok :
    (parts : List Text) (k : ℕ) {p : Text} → plain_prefix parts k ≡ ok p → k ≤ length parts
unfolding plain_prefix
plain_prefix-ok parts k h = ground arith

-- The first step of a bind that succeeds.
pub bind_ok {ℓ} :
    {A B : Type ℓ} (m : Result ParseError A) (f : A → Result ParseError B) {b : B}
    → (m >>= f) ≡ ok b
    → (a : A) × (m ≡ ok a) × (f a ≡ ok b)
bind_ok (ok a) f h = (a, refl, h)
bind_ok (err e) f h = absurd (cc)

image_parts-valid :
    (parts : List Text)
    → image_parts_ok parts ≡ true
    → (is_valid_rotation (from_end parts 2) ≡ true)
      × (is_valid_size (from_end parts 3) ≡ true)
      × (is_valid_region (from_end parts 4) ≡ true)
unfolding image_parts_ok
image_parts-valid parts h = ground arith

-- Segments whose last four are valid are the parts of an image request.
five_parts :
    (parts : List Text)
    → 5 ≤ length parts
    → is_valid_qualform (from_end parts 1) ≡ true
    → image_parts_ok parts ≡ true
    → (pre : List Text) × (id : Text) × (im : Image) × IsImage im × (parts ≡ image_parts pre id im)
five_parts parts h q m =
    let s = before_last-Split 5 parts h in
    of_back s.front s.back s.length_back
      (subst (λ ps. is_valid_qualform (from_end ps 1) ≡ true) s.whole q)
      (image_parts-valid (s.front ++ s.back) (subst (λ ps. image_parts_ok ps ≡ true) s.whole m))
      s.whole
  where
    of_back :
        (pre back : List Text)
        → length back ≡ 5
        → is_valid_qualform (from_end (pre ++ back) 1) ≡ true
        → (is_valid_rotation (from_end (pre ++ back) 2) ≡ true)
          × (is_valid_size (from_end (pre ++ back) 3) ≡ true)
          × (is_valid_region (from_end (pre ++ back) 4) ≡ true)
        → parts ≡ pre ++ back
        → (pre : List Text) × (id : Text) × (im : Image) × IsImage im
          × (parts ≡ image_parts pre id im)
    of_back pre (id ∷ a ∷ b ∷ c ∷ d ∷ []) l q (r, s, g) e =
        let xs : List Text = id ∷ a ∷ b ∷ c ∷ d ∷ [] in
        let (ql, f, eq) =
          is_valid_qualform_sound d
            (sym (ap is_valid_qualform (from_end-append pre xs 4 1 refl)) ∙ q) in
        let (rot, kr, er) =
          is_valid_rotation_sound c
            (sym (ap is_valid_rotation (from_end-append pre xs 3 2 refl)) ∙ r) in
        let (sz, ks, es) =
          is_valid_size_sound b (sym (ap is_valid_size (from_end-append pre xs 2 3 refl)) ∙ s) in
        let (reg, kg, eg) =
          is_valid_region_sound a
            (sym (ap is_valid_region (from_end-append pre xs 1 4 refl)) ∙ g) in
        (
          pre,
          id,
          record { region = reg; size = sz; rotation = rot; quality = ql; format = f },
          record { region = kg; size = ks; rotation = kr },
          e ∙ ap (λ (ys : List Text). pre ++ id ∷ ys) (cc (eq, er, es, eg)),
        )
    of_back pre [] l q v e = absurd (omega arith)
    of_back pre (a ∷ []) l q v e = absurd (omega arith)
    of_back pre (a ∷ b ∷ []) l q v e = absurd (omega arith)
    of_back pre (a ∷ b ∷ c ∷ []) l q v e = absurd (omega arith)
    of_back pre (a ∷ b ∷ c ∷ d ∷ []) l q v e = absurd (omega arith)
    of_back pre (a ∷ b ∷ c ∷ d ∷ e ∷ f ∷ g) l q v x = absurd (omega arith)

module _ {F : Type 0} (fl : Floats F) where
  as_image-length :
      (parts : List Text) {r : ParsedRequest F} → as_image fl parts ≡ ok r → 5 ≤ length parts
  unfolding as_image
  as_image-length parts h =
      let (p, e, _) = bind_ok (plain_prefix parts 5) _ h in plain_prefix-ok parts 5 e

  -- A request is taken for an image only if its segments are a prefix, an identifier and a valid
  -- region, size, rotation and quality with format; the answer is what those mean.
  pub image_sound :
      (parts : List Text) (r : ParsedRequest F)
      → classify fl parts ≡ ok r
      → r.kind ≡ iiif
      → (pre : List Text) × (id : Text) × (im : Image) × IsImage im
        × (parts ≡ image_parts pre id im)
        × (with_params fl pre id (image_meaning fl im) ≡ some r)
  image_sound parts r h k = of_cases (classify_cases fl parts h)
    where
      of_cases :
          Classified fl parts r
          → (pre : List Text) × (id : Text) × (im : Image) × IsImage im
            × (parts ≡ image_parts pre id im)
            × (with_params fl pre id (image_meaning fl im) ≡ some r)
      of_cases (image q m a) =
          let (pre, id, im, v, e) = five_parts parts (as_image-length parts a) q m in
          (
            pre,
            id,
            im,
            v,
            e,
            sym (classify-image_parts fl pre id im v) ∙ ap to_option (ap (classify fl) (sym e) ∙ h),
          )
      of_cases (document d n u) =
          let same : d ≡ iiif = sym (under_identifier-kind fl d parts u).0 ∙ k in
          absurd (cc (ap document_name same))
      of_cases (bare m q a) = let redirected = (as_redirect-kind fl parts a).0 in absurd (cc)

  pub as_image-kind :
      (parts : List Text) {r : ParsedRequest F} → as_image fl parts ≡ ok r → r.kind ≡ iiif
  unfolding as_image
  as_image-kind parts h =
      let (p, _, f) = bind_ok (plain_prefix parts 5) _ h in
      let (q, _, g) =
        bind_ok
          (parse_iiif_params fl (from_end parts 4) (from_end parts 3) (from_end parts 2)
            (from_end parts 1))
          _ f in
      cc

  pub ok_injective :
      {a b : ParsedRequest F} → ◌≡◌ {A = Result ParseError (ParsedRequest F)} (ok a) (ok b) → a ≡ b
  ok_injective h = cc

  under_identifier-append :
      (k : RequestKind) (pre : List Text) (id last : Text)
      → under_identifier fl k (pre ++ id ∷ last ∷ [])
        ≡ ok (record { kind = k; prefix = join b'/' pre; identifier = id; params = none })
  unfolding under_identifier
  under_identifier-append k pre id last =
      rw (plain_prefix-append pre (id ∷ last ∷ []) 2 refl)
        (rw (from_end-append pre (id ∷ last ∷ []) 0 2 refl))

  document_parts :
      (k : RequestKind) (parts : List Text) (r : ParsedRequest F)
      → under_identifier fl k parts ≡ ok r
      → (pre : List Text) × (id : Text) × (parts ≡ pre ++ id ∷ from_end parts 1 ∷ [])
        × (r ≡ record { kind = k; prefix = join b'/' pre; identifier = id; params = none })
  unfolding under_identifier
  document_parts k parts r h =
      let (p, e, f) = bind_ok (plain_prefix parts 2) _ h in
      let s = before_last-Split 2 parts (plain_prefix-ok parts 2 e) in
      of_back s.front s.back s.length_back s.whole
    where
      of_back :
          (pre back : List Text)
          → length back ≡ 2
          → parts ≡ pre ++ back
          → (pre : List Text) × (id : Text) × (parts ≡ pre ++ id ∷ from_end parts 1 ∷ [])
            × (r ≡ record { kind = k; prefix = join b'/' pre; identifier = id; params = none })
      of_back pre (id ∷ last ∷ []) l e = (
        pre,
        id,
        e
            ∙ ap (λ (x : Text). pre ++ id ∷ x ∷ [])
                (sym (
                  ap (λ (ps : List Text). from_end ps 1) e
                  ∙ from_end-append pre (id ∷ last ∷ []) 1 1 refl)),
        ok_injective (sym h ∙ ap (under_identifier fl k) e ∙ under_identifier-append k pre id last),
      )
      of_back pre [] l e = absurd (omega arith)
      of_back pre (a ∷ []) l e = absurd (omega arith)
      of_back pre (a ∷ b ∷ c ∷ d) l e = absurd (omega arith)

  -- A request is taken for a document only if its last segment is the document's name, behind a
  -- prefix and an identifier.
  pub document_sound :
      (parts : List Text) (r : ParsedRequest F) (name : Text)
      → classify fl parts ≡ ok r
      → document_name r.kind ≡ some name
      → (pre : List Text) × (id : Text) × (parts ≡ pre ++ id ∷ name ∷ [])
        × (r ≡ record { kind = r.kind; prefix = join b'/' pre; identifier = id; params = none })
  document_sound parts r name h k = of_cases (classify_cases fl parts h)
    where
      of_cases :
          Classified fl parts r
          → (pre : List Text) × (id : Text) × (parts ≡ pre ++ id ∷ name ∷ [])
            × (r ≡ record { kind = r.kind; prefix = join b'/' pre; identifier = id; params = none })
      of_cases (image q m a) =
          let same = as_image-kind parts a in absurd (cc (k, ap document_name same))
      of_cases (document d n u) =
          let (pre, id, e, f) = document_parts d parts r u in
          let same = (under_identifier-kind fl d parts u).0 in
          let named : name ≡ from_end parts 1 = cc (n, k, ap document_name same) in
          (
            pre,
            id,
            e ∙ ap (λ (x : Text). pre ++ id ∷ x ∷ []) (sym named),
            f
                ∙ ap
                    (λ (x : RequestKind). record {
                      kind = x;
                      prefix = join b'/' pre;
                      identifier = id;
                      params = none;
                    })
                    (sym same),
          )
      of_cases (bare m q a) =
          let redirected = (as_redirect-kind fl parts a).0 in
          absurd (cc (k, ap document_name redirected))
