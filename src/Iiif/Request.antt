-- ===== src/Iiif/Request.antt =====
-- Request classification, src/iiifparser/rust/request.rs. Percent-decoding (the crate
-- `percent-encoding`, with a lossy UTF-8 conversion) is the parameter `urldecode`.
pub mod Ends
pub mod Images
pub mod Kinds
pub mod Sound
pub mod Redirects
pub mod Uris
pub mod Parameters
use sipi.Common.{
  ℕ, ◌-◌, List, [], ◌∷◌, ◌++◌, map, Bool, true, false, ◌&&◌, ◌||◌, Option, none, some, Text, codes,
  is_empty, ◌=t=◌, starts_with, ends_with, split, split_once, join, length, get_elem?, take, drop,
  unwrap_or, if◌then◌else◌, ltb, leb, ◌==◌, Result, ok, err, ◌>>=◌,
}
use sipi.Iiif.Domain.{ParseError, IiifParams, Floats}
use sipi.Iiif.Grammar.{is_valid_region, is_valid_size, is_valid_rotation, is_valid_qualform}
use sipi.Iiif.Params.{parse_iiif_params}

pub data RequestKind : Type 0 where
  iiif info_json knora_json redirect file_download : RequestKind

pub record ParsedRequest (F : Type 0) : Type 0 where
  pub kind : RequestKind
  pub prefix : Text
  pub identifier : Text
  pub params : Option (IiifParams F)

abbrev pub malformed {ℓ} : {A : Type ℓ} → Result ParseError A
malformed = err (record { message = codes "IIIF url not correctly formatted" })

abbrev quality_error {ℓ} : {A : Type ℓ} → Text → Result ParseError A
quality_error last = err (record {
  message = codes "IIIF url not correctly formatted: Error in quality: \"" ++ (last ++ codes "\"!");
})

-- `segs.remove(0)` on a list that is not empty.
abbrev remove_first : List Text → List Text
remove_first [] = []
remove_first (t ∷ ts) = ts

-- `segs.pop()` if the last segment is there and empty.
unfoldable pub pop_empty : List Text → List Text
pop_empty [] = []
pop_empty (t ∷ []) = if is_empty t then [] else t ∷ []
pop_empty (t ∷ u ∷ us) = t ∷ pop_empty (u ∷ us)

pub tokenize : (Text → Text) → Text → List Text
unfolding pop_empty
tokenize urldecode uri =
    if is_empty uri
    then []
    else let segs = split b'/' uri in
      let inner = if starts_with (codes "/") uri then remove_first segs else segs in
      map urldecode (if ends_with (codes "/") uri then pop_empty inner else inner)

-- The loop of `build_prefix_strict`.
pub prefix_from : Text → List Text → Result ParseError Text
prefix_from prefix [] = ok prefix
prefix_from prefix (p ∷ ps) =
    let rest = prefix_from ((if is_empty prefix then prefix else prefix ++ b'/' ∷ []) ++ p) ps in
    if is_empty p then malformed else rest

pub build_prefix_strict : List Text → Result ParseError Text
unfolding prefix_from
build_prefix_strict parts = prefix_from [] parts

-- `parts[n - k]`; every use is guarded by a test that `n` is at least `k`.
abbrev from_end : List Text → ℕ → Text
from_end parts k = unwrap_or (get_elem? parts (length parts - k)) []

-- `parts[..n - k]`.
abbrev but_last : List Text → ℕ → List Text
but_last parts k = take (length parts - k) parts

pub rotation_ok : List Text → Bool
rotation_ok parts = ltb 1 (length parts) && is_valid_rotation (from_end parts 2)

pub size_ok : List Text → Bool
size_ok parts = ltb 2 (length parts) && is_valid_size (from_end parts 3)

pub region_ok : List Text → Bool
region_ok parts = ltb 3 (length parts) && is_valid_region (from_end parts 4)

-- `rotation_ok && size_ok && region_ok`.
pub image_parts_ok : List Text → Bool
unfolding rotation_ok size_ok region_ok
image_parts_ok parts = rotation_ok parts && size_ok parts && region_ok parts

-- The prefix of a request whose identifier stands at `n - k`, or an error if there is none.
pub plain_prefix : List Text → ℕ → Result ParseError Text
plain_prefix parts k =
    if ltb k (length parts)
    then ok (join b'/' (but_last parts k))
    else if length parts == k
    then ok []
    else malformed

module _ {F : Type 0} (fl : Floats F) where
  -- A request for a document under the identifier: `info.json`, `knora.json` or `file`.
  pub under_identifier : RequestKind → List Text → Result ParseError (ParsedRequest F)
  unfolding plain_prefix
  under_identifier kind parts = plain_prefix parts 2 >>= λ prefix.
      ok (record { kind = kind; prefix = prefix; identifier = from_end parts 2; params = none })

  pub as_image : List Text → Result ParseError (ParsedRequest F)
  unfolding plain_prefix
  as_image parts = plain_prefix parts 5 >>= λ prefix.
      parse_iiif_params fl (from_end parts 4) (from_end parts 3) (from_end parts 2)
        (from_end parts 1)
      >>= λ params. ok (record {
        kind = RequestKind.iiif;
        prefix = prefix;
        identifier = from_end parts 5;
        params = some params;
      })

  pub as_redirect : List Text → Result ParseError (ParsedRequest F)
  unfolding build_prefix_strict
  as_redirect parts = build_prefix_strict (but_last parts 1) >>= λ prefix. ok (record {
    kind = RequestKind.redirect;
    prefix = prefix;
    identifier = from_end parts 1;
    params = none;
  })

  -- A last segment with a dot.
  pub classify_dotted : List Text → Text → Text → Result ParseError (ParsedRequest F)
  unfolding image_parts_ok as_image under_identifier as_redirect
  classify_dotted parts body ext =
      let qualform_ok = is_valid_qualform (from_end parts 1) in
      if qualform_ok && image_parts_ok parts
      then as_image parts
      else if body =t= codes "info" && ext =t= codes "json"
      then under_identifier RequestKind.info_json parts
      else if body =t= codes "knora" && ext =t= codes "json"
      then under_identifier RequestKind.knora_json parts
      else if qualform_ok
      then malformed
      else if image_parts_ok parts
      then quality_error (from_end parts 1)
      else as_redirect parts

  unfoldable pub classify : List Text → Result ParseError (ParsedRequest F)
  unfolding classify_dotted
  classify parts = elim (split_once b'.' (from_end parts 1)) [
    | some (body, ext) ↦ classify_dotted parts body ext
    | none ↦
        if from_end parts 1 =t= codes "file"
        then under_identifier RequestKind.file_download parts
        else if image_parts_ok parts
        then quality_error (from_end parts 1)
        else as_redirect parts
  ]

  unfoldable pub parse_request : (Text → Text) → Text → Result ParseError (ParsedRequest F)
  unfolding tokenize classify
  parse_request urldecode uri = elim (tokenize urldecode uri) [
    | [] ↦ err (record { message = codes "No parameters/path given" })
    | t ∷ ts ↦ classify (t ∷ ts)
  ]
