-- ===== src/Info/Knora.antt =====
-- The sidecar of a file and the documents knora.json, server-rs/src/info.rs.
use sipi.Common.{
  ℕ, [], Bool, Option, none, some, Text, codes, ltb, is_empty, unwrap_or, and_then, if◌then◌else◌,
}
use sipi.Info.Json.{
  Json, str, num, real, obj, Members, no_members, insert, field, put_some, as_json,
}
use sipi.Info.Documents.{SipiImageDims, file_context}

pub record ImageEssentials : Type 0 where
  pub original_mimetype : Text
  pub original_filename : Text

pub record Sidecar (R : Type 0) : Type 0 where
  pub original_filename : Option Text
  pub checksum_original : Option Text
  pub checksum_derivative : Option Text
  pub duration : Option R
  pub fps : Option R
  pub height : Option R
  pub width : Option R

module _ {R : Type 0} where
  abbrev pub as_str : Json R → Option Text
  as_str (str t) = some t
  as_str _ = none

  abbrev pub empty_sidecar : Sidecar R
  empty_sidecar = record {
    original_filename = none;
    checksum_original = none;
    checksum_derivative = none;
    duration = none;
    fps = none;
    height = none;
    width = none;
  }

  -- The text is read by `serde_json::from_str`, and a number by `as_f64`.
  unfoldable pub parse : (Text → Option (Json R)) → (Json R → Option R) → Text → Sidecar R
  unfolding field
  parse from_str as_f64 text = elim (from_str text) [
    | some (obj m) ↦ record {
      original_filename = and_then (field m (codes "originalFilename")) as_str;
      checksum_original = and_then (field m (codes "checksumOriginal")) as_str;
      checksum_derivative = and_then (field m (codes "checksumDerivative")) as_str;
      duration = and_then (field m (codes "duration")) as_f64;
      fps = and_then (field m (codes "fps")) as_f64;
      height = and_then (field m (codes "height")) as_f64;
      width = and_then (field m (codes "width")) as_f64;
    }
    | _ ↦ empty_sidecar
  ]

  unfoldable pub knora_base : Text → Sidecar R → Members R
  unfolding insert put_some
  knora_base id sidecar =
      let m = insert no_members (codes "@context") (str file_context) in
      let m = insert m (codes "id") (str id) in
      let m = put_some m (codes "checksumOriginal") (as_json sidecar.checksum_original) in
      put_some m (codes "checksumDerivative") (as_json sidecar.checksum_derivative)

  unfoldable pub image_knora_json :
      Text → Text → SipiImageDims → Sidecar R → Option ImageEssentials → Members R
  unfolding knora_base insert put_some
  image_knora_json id mime d sidecar essentials =
      let m = insert (knora_base id sidecar) (codes "width") (num d.width) in
      let m = insert m (codes "height") (num d.height) in
      let m = if ltb 0 d.numpages then insert m (codes "numpages") (num d.numpages) else m in
      let m = insert m (codes "internalMimeType") (str mime) in
      elim essentials [
        | none ↦ m
        | some e ↦
            insert (insert m (codes "originalMimeType") (str e.original_mimetype))
              (codes "originalFilename") (str e.original_filename)
      ]

  -- A name that is not empty; a number that is not negative.
  abbrev pub name_value : Option Text → Option (Json R)
  name_value none = none
  name_value (some t) = if is_empty t then none else some (str t)

  abbrev pub metric : (R → Bool) → Option R → Option (Json R)
  metric non_negative none = none
  metric non_negative (some v) = if non_negative v then some (real v) else none

  unfoldable pub video_knora_json : (R → Bool) → Text → Text → ℕ → Sidecar R → Members R
  unfolding knora_base insert put_some
  video_knora_json non_negative id mime file_size sidecar =
      let m = insert (knora_base id sidecar) (codes "internalMimeType") (str mime) in
      let m = insert m (codes "fileSize") (num file_size) in
      let m = put_some m (codes "originalFilename") (name_value sidecar.original_filename) in
      let m = put_some m (codes "duration") (metric non_negative sidecar.duration) in
      let m = put_some m (codes "fps") (metric non_negative sidecar.fps) in
      let m = put_some m (codes "height") (metric non_negative sidecar.height) in
      put_some m (codes "width") (metric non_negative sidecar.width)

  unfoldable pub generic_knora_json : Text → Text → ℕ → Sidecar R → Members R
  unfolding knora_base insert put_some
  generic_knora_json id mime file_size sidecar =
      let m = insert (knora_base id sidecar) (codes "internalMimeType") (str mime) in
      let m = insert m (codes "fileSize") (num file_size) in
      insert m (codes "originalFilename") (str (unwrap_or sidecar.original_filename []))
