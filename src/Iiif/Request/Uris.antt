-- ===== src/Iiif/Request/Uris.antt =====
-- From the text of a URI to its segments, and the image request that a URI spells.
use sipi.Common.{
  ℕ, List, [], ◌∷◌, ◌++◌, map, Bool, true, false, Text, codes, ◌≡◌, ◌≢◌, refl, ap, ap₂, ◌∙◌, sym,
  inl, inr, arith, join, split-join, All, All-append, is_empty, Lacks, if◌then◌else◌, Bool-cases,
  ends_with, append_assoc,
}
use sipi.Iiif.Domain.{Floats}
use sipi.Iiif.Grammar.Forms.{
  IsDigit, Posfloat, whole, fraction, posfloat, IsPosfloat, Region, full, square, coords, percents,
  region_text, IsRegion, SizeForm, max, percent, width, height, exact, confined, size_form_text,
  IsSizeForm, size_text, rotation_text, Quality, Format, quality_text, format_text, qualform_text,
}
use sipi.Iiif.Params.Sizes.{to_option}
use sipi.Iiif.Params.Images.{Image, IsImage, segments, image_meaning}
use sipi.Iiif.Request.{pop_empty, tokenize, parse_request, classify}
use sipi.Iiif.Request.Images.{image_parts, with_params, classify-image_parts}

-- A byte that is neither a slash nor a percent sign, and a text of such bytes.
abbrev pub PlainByte : ℕ → Type 0
PlainByte d = (d ≢ b'/') × (d ≢ b'%')

abbrev pub IsPlain : Text → Type 0
IsPlain = All PlainByte

digits-IsPlain : (t : Text) → All IsDigit t → IsPlain t
digits-IsPlain [] k = tt
digits-IsPlain (c ∷ t) k = (ground arith, digits-IsPlain t k.1)

posfloat-IsPlain : (p : Posfloat) → IsPosfloat p → IsPlain (posfloat p)
posfloat-IsPlain (whole a) k = digits-IsPlain a k.1
posfloat-IsPlain (fraction a b) k =
    All-append PlainByte a (b'.' ∷ b) (digits-IsPlain a k.0.1) (omega arith, digits-IsPlain b k.1.1)

join_two : (c : ℕ) (a b : Text) → PlainByte c → IsPlain a → IsPlain b → IsPlain (a ++ c ∷ b)
join_two c a b h ka kb = All-append PlainByte a (c ∷ b) ka (h, kb)

four-IsPlain :
    (a b c d : Text)
    → IsPlain a
    → IsPlain b
    → IsPlain c
    → IsPlain d
    → IsPlain (a ++ (b',' ∷ (b ++ (b',' ∷ (c ++ (b',' ∷ d))))))
four-IsPlain a b c d ka kb kc kd =
    join_two b',' a _ (omega arith) ka
      (join_two b',' b _ (omega arith) kb (join_two b',' c d (omega arith) kc kd))

region-IsPlain : (r : Region) → IsRegion r → IsPlain (region_text r)
region-IsPlain full k = omega arith
region-IsPlain square k = omega arith
region-IsPlain (coords a b c d) (ka, kb, kc, kd) =
    four-IsPlain a b c d (digits-IsPlain a ka.1) (digits-IsPlain b kb.1) (digits-IsPlain c kc.1)
      (digits-IsPlain d kd.1)
region-IsPlain (percents a b c d) (ka, kb, kc, kd) =
    All-append PlainByte (codes "pct:") _ (omega arith) (
      four-IsPlain (posfloat a) (posfloat b) (posfloat c) (posfloat d) (posfloat-IsPlain a ka)
        (posfloat-IsPlain b kb) (posfloat-IsPlain c kc) (posfloat-IsPlain d kd))

size_form-IsPlain : (f : SizeForm) → IsSizeForm f → IsPlain (size_form_text f)
size_form-IsPlain max k = omega arith
size_form-IsPlain (percent p) k =
    All-append PlainByte (codes "pct:") _ (omega arith) (posfloat-IsPlain p k)
size_form-IsPlain (width w) k = join_two b',' w [] (omega arith) (digits-IsPlain w k.1) tt
size_form-IsPlain (height h) k = (omega arith, digits-IsPlain h k.1)
size_form-IsPlain (exact w h) k =
    join_two b',' w h (omega arith) (digits-IsPlain w k.0.1) (digits-IsPlain h k.1.1)
size_form-IsPlain (confined w h) k =
    (omega arith, join_two b',' w h (omega arith) (digits-IsPlain w k.0.1) (digits-IsPlain h k.1.1))

marked-IsPlain :
    (b : Bool) (c : ℕ) (t : Text) → PlainByte c → IsPlain t → IsPlain (if b then c ∷ t else t)
marked-IsPlain true c t h k = (h, k)
marked-IsPlain false c t h k = k

quality-IsPlain : (q : Quality) → IsPlain (quality_text q)
quality-IsPlain Quality.color = omega arith
quality-IsPlain Quality.gray = omega arith
quality-IsPlain Quality.bitonal = omega arith
quality-IsPlain Quality.default = omega arith

format-IsPlain : (f : Format) → IsPlain (format_text f)
format-IsPlain Format.jpg = omega arith
format-IsPlain Format.tif = omega arith
format-IsPlain Format.png = omega arith
format-IsPlain Format.jp2 = omega arith

segments-IsPlain : (im : Image) → IsImage im → All IsPlain (segments im)
segments-IsPlain im k = (
  region-IsPlain im.region k.region,
  (
    marked-IsPlain im.size.mark b'^' _ (omega arith) (size_form-IsPlain im.size.value k.size),
    (
      marked-IsPlain im.rotation.mark b'!' _ (omega arith)
          (posfloat-IsPlain im.rotation.value k.rotation),
      (
        join_two b'.' (quality_text im.quality) (format_text im.format) (omega arith)
            (quality-IsPlain im.quality) (format-IsPlain im.format),
        tt,
      ),
    ),
  ),
)

plain-Lacks : (t : Text) → IsPlain t → Lacks b'/' t × Lacks b'%' t
plain-Lacks [] k = (tt, tt)
plain-Lacks (c ∷ t) k = let (s, p) = plain-Lacks t k.1 in ((k.0.0, s), (k.0.1, p))

plain-All : (ts : List Text) → All IsPlain ts → All (Lacks b'/') ts
plain-All [] k = tt
plain-All (t ∷ ts) k = ((plain-Lacks t k.0).0, plain-All ts k.1)

-- What percent-decoding does to a text with nothing to decode.
abbrev pub KeepsPlain : (Text → Text) → Type 0
KeepsPlain urldecode = (t : Text) → Lacks b'%' t → urldecode t ≡ t

decode-All :
    (urldecode : Text → Text)
    → KeepsPlain urldecode
    → (ts : List Text) → All IsPlain ts
    → map urldecode ts ≡ ts
decode-All urldecode keeps [] k = refl
decode-All urldecode keeps (t ∷ ts) k =
    ap₂ ◌∷◌ (keeps t (plain-Lacks t k.0).1) (decode-All urldecode keeps ts k.1)

pop_empty-filled :
    (front : List Text) (last : Text)
    → is_empty last ≡ false
    → pop_empty (front ++ last ∷ []) ≡ front ++ last ∷ []
unfolding pop_empty
pop_empty-filled [] last f = rw f
pop_empty-filled (t ∷ []) last f = rw f
pop_empty-filled (t ∷ u ∷ us) last f = ap (◌∷◌ t) (pop_empty-filled (u ∷ us) last f)

-- The path of a URI, with its leading slash.
abbrev pub uri_of : List Text → Text
uri_of parts = b'/' ∷ join b'/' parts

-- A path of segments without a slash or a percent sign, of which `pop_empty` takes none away, is split
-- into these segments, where the percent decoder keeps a text without a percent sign.
pub tokenize-uri_of :
    (urldecode : Text → Text) (t : Text) (ts : List Text)
    → KeepsPlain urldecode
    → All IsPlain (t ∷ ts)
    → pop_empty (t ∷ ts) ≡ t ∷ ts
    → tokenize urldecode (uri_of (t ∷ ts)) ≡ t ∷ ts
unfolding tokenize
tokenize-uri_of urldecode t ts keeps k last =
    rw (split-join b'/' t ts (plain-All (t ∷ ts) k))
      (elim (Bool-cases (ends_with (codes "/") (uri_of (t ∷ ts)))) [
        | inl e ↦ rw e (rw last (decode-All urldecode keeps (t ∷ ts) k))
        | inr e ↦ rw e (decode-All urldecode keeps (t ∷ ts) k)
      ])

qualform-filled : (q : Quality) (f : Format) → is_empty (qualform_text q f) ≡ false
qualform-filled Quality.color f = refl
qualform-filled Quality.gray f = refl
qualform-filled Quality.bitonal f = refl
qualform-filled Quality.default f = refl

pop_empty-image :
    (pre : List Text) (id : Text) (im : Image)
    → pop_empty (image_parts pre id im) ≡ image_parts pre id im
pop_empty-image pre id im =
    let front : List Text =
      id ∷ region_text im.region ∷ size_text im.size ∷ rotation_text im.rotation ∷ [] in
    let last = qualform_text im.quality im.format in
    let same = append_assoc pre front (last ∷ []) in
    ap pop_empty (sym same)
    ∙ pop_empty-filled (pre ++ front) last (qualform-filled im.quality im.format)
    ∙ same

module _ {F : Type 0} (fl : Floats F) (urldecode : Text → Text) where
  parse_request-tokens :
      (uri t : Text) (ts : List Text)
      → tokenize urldecode uri ≡ t ∷ ts
      → parse_request fl urldecode uri ≡ classify fl (t ∷ ts)
  unfolding parse_request
  parse_request-tokens uri t ts e = rw (e, parse_request)

  -- The URI spelled by a prefix, an identifier and a valid image, the segments of the first two
  -- without a slash or a percent sign, is parsed into what it asks for, and refused exactly where
  -- that has no meaning; the percent decoder keeps a text without a percent sign.
  pub parse_request-image :
      (pre : List Text) (id : Text) (im : Image)
      → KeepsPlain urldecode
      → All IsPlain pre
      → IsPlain id
      → IsImage im
      → to_option (parse_request fl urldecode (uri_of (image_parts pre id im)))
        ≡ with_params fl pre id (image_meaning fl im)
  parse_request-image pre id im keeps kp kid k =
      of_parts (image_parts pre id im)
        (All-append IsPlain pre (id ∷ segments im) kp (kid, segments-IsPlain im k))
        (pop_empty-image pre id im) (nonempty pre)
      ∙ classify-image_parts fl pre id im k
    where
      nonempty : (pre : List Text) → image_parts pre id im ≢ []
      nonempty [] = λ e. cc
      nonempty (t ∷ ts) = λ e. cc

      of_parts :
          (parts : List Text)
          → All IsPlain parts
          → pop_empty parts ≡ parts
          → parts ≢ []
          → to_option (parse_request fl urldecode (uri_of parts)) ≡ to_option (classify fl parts)
      of_parts [] a last n = absurd (n refl)
      of_parts (t ∷ ts) a last n = ap to_option (
          parse_request-tokens (uri_of (t ∷ ts)) t ts (tokenize-uri_of urldecode t ts keeps a last))
