-- ===== src/Bindings/Images/Operations.antt =====
-- The other methods of an image that change it, and `SipiImage.new`. The handle of an image is a parameter: its
-- calls, and the angles that it takes.
use sipi.Common.{
  List, [], ◌∷◌, ◌++◌, Bool, false, Option, none, some, ℤ, Text, codes, ◌=t=◌, unwrap_or,
  if◌then◌else◌, Result, ok, err, ◌>>=◌,
}
use sipi.Settings.{Value, boolean, integer, number, string, table}
use sipi.Bindings.{
  Lua, Reply, done, affirmed, flag, failed, raised, coerce_string, RequestData, upload_tmpname,
}
use sipi.Bindings.Images.{among, image_arg, ParamsRefusal, params_fail, params_raise}

-- A call answers, or fails with a text.
pub record Handle (F A I W : Type 0) : Type 0 where
  pub new : Text → Option Text → Option Text → Option ℤ → Option Text → W → Result Text I × W
  pub crop : I → Text → W → Result Text (Unit {0}) × W
  pub scale : I → Text → W → Result Text (Unit {0}) × W
  pub rotate : I → A → Bool → W → Result Text (Unit {0}) × W
  pub topleft : I → W → Result Text (Unit {0}) × W
  pub watermark : I → Text → W → Result Text (Unit {0}) × W
  pub mimetype_consistency : I → Text → Text → W → Result Text Bool
  pub angle_of_i64 : ℤ → A
  pub angle_of_f64 : F → A
  pub to_i64 : F → ℤ

pub record NewOptions : Type 0 where
  pub region : Option Text
  pub size : Option Text
  pub reduce : Option ℤ
  pub original : Option Text

abbrev bad_option : Text → Result ParamsRefusal NewOptions
bad_option what = err (params_fail (codes "SipiImage.new(): Error in " ++ what))

abbrev pub hash_types : List Text
hash_types = codes "md5" ∷ codes "sha1" ∷ codes "sha256" ∷ codes "sha384" ∷ codes "sha512" ∷ []

module _ {F T A I W : Type 0} (lua : Lua F T) (image_of : Value F T → Option I)
    (handle : Handle F A I W) where
  unfoldable pub new_option : Text → Value F T → NewOptions → Result ParamsRefusal NewOptions
  unfolding among
  new_option param value o =
      if param =t= codes "region"
      then elim value [
        | string s ↦ ok (record o { region = some s })
        | _ ↦ bad_option (codes "region parameter")
      ]
      else if param =t= codes "size"
      then elim value [
        | string s ↦ ok (record o { size = some s })
        | _ ↦ bad_option (codes "size parameter")
      ]
      else if param =t= codes "reduce"
      then elim value [
        | integer i ↦ ok (record o { reduce = some i })
        | number n ↦ ok (record o { reduce = some (handle.to_i64 n) })
        | _ ↦ bad_option (codes "reduce parameter")
      ]
      else if param =t= codes "original"
      then elim value [
        | string s ↦ ok (record o { original = some s })
        | _ ↦ bad_option (codes "original parameter")
      ]
      else if param =t= codes "hash"
      then elim value [
        | string h ↦ if among h hash_types then ok o else bad_option (codes "hash type")
        | _ ↦ bad_option (codes "hash parameter")
      ]
      else bad_option (codes "parameter table (unknown parameter)")

  -- A key that is no text is skipped.
  unfoldable pub new_options :
      List (Result Text (Value F T × Value F T)) → NewOptions → Result ParamsRefusal NewOptions
  unfolding new_option coerce_string
  new_options [] o = ok o
  new_options (err e ∷ ps) o = err (params_raise e)
  new_options (ok (k, v) ∷ ps) o =
      let rest = new_options ps in
      elim (coerce_string lua k) [ none ↦ rest o | some param ↦ new_option param v o >>= rest ]

  -- The path of the image, and the name it was uploaded with.
  unfoldable pub new_source : RequestData → Value F T → Result Text (Text × Option Text)
  unfolding upload_tmpname
  new_source req (integer index) = elim (upload_tmpname req index) [
    | none ↦ err (codes "'SipiImage.new()': Could not read data of uploaded file. Invalid index?")
    | some u ↦ ok (u.tmpname, some u.origname)
  ]
  new_source req (string s) = ok (s, none)
  new_source req _ = err (codes "SipiImage.new(): filename must be string or index")

  unfoldable pub new_arguments : List (Value F T) → Option Text → Result ParamsRefusal NewOptions
  unfolding new_options
  new_arguments [] original =
      ok (record { region = none; size = none; reduce = none; original = original })
  new_arguments (table opts ∷ args) original =
      new_options (lua.pairs opts)
        (record { region = none; size = none; reduce = none; original = original })
  new_arguments (_ ∷ args) original =
      err (params_fail (codes "SipiImage.new(): Second parameter must be table"))

  abbrev new_refusal : ParamsRefusal → Reply
  new_refusal (params_fail t) = failed t
  new_refusal (params_raise t) = raised t

  abbrev made : Result Text I × W → Result Reply I × W
  made (ok i, w) = (ok i, w)
  made (err msg, w) = (err (failed (codes "SipiImage.new(): " ++ msg)), w)

  -- The image, or the reply that refuses it.
  unfoldable pub image_new : RequestData → List (Value F T) → W → Result Reply I × W
  unfolding new_source new_arguments
  image_new req [] w = (err (failed (codes "SipiImage.new(): No filename given")), w)
  image_new req (a ∷ args) w = elim (new_source req a) [
    | err t ↦ (err (failed t), w)
    | ok (imgpath, original) ↦ elim (new_arguments args original) [
      | err r ↦ (err (new_refusal r), w)
      | ok o ↦ made (handle.new imgpath o.region o.size o.reduce o.original w)
    ]
  ]

  abbrev changed : Text → Result Text (Unit {0}) × W → Reply × W
  changed who (ok u, w) = (done, w)
  changed who (err msg, w) = (failed (codes "SipiImage." ++ (who ++ (codes "(): " ++ msg))), w)

  -- The text in the second place.
  abbrev second_text : List (Value F T) → Option Text
  second_text (a ∷ b ∷ args) = coerce_string lua b
  second_text _ = none

  abbrev with_text :
      Text → Text → (I → Text → W → Result Text (Unit {0}) × W) → List (Value F T) → W → Reply × W
  with_text who missing call args w = elim (image_arg lua image_of args who) [
    | err t ↦ (failed t, w)
    | ok i ↦ elim (second_text args) [
      | none ↦ (failed (codes "SipiImage." ++ (who ++ missing)), w)
      | some s ↦ changed who (call i s w)
    ]
  ]

  unfoldable pub image_crop : List (Value F T) → W → Reply × W
  unfolding image_arg coerce_string
  image_crop args w =
      with_text (codes "crop") (codes "(): Incorrect number of arguments") handle.crop args w

  unfoldable pub image_scale : List (Value F T) → W → Reply × W
  unfolding image_arg coerce_string
  image_scale args w =
      with_text (codes "scale") (codes "(): Incorrect number of arguments") handle.scale args w

  unfoldable pub image_watermark : List (Value F T) → W → Reply × W
  unfolding image_arg coerce_string
  image_watermark args w =
      with_text (codes "watermark") (codes "(): Incorrect arguments") handle.watermark args w

  abbrev angle_of : Value F T → Option A
  angle_of (integer i) = some (handle.angle_of_i64 i)
  angle_of (number n) = some (handle.angle_of_f64 n)
  angle_of _ = none

  abbrev mirror_of : List (Value F T) → Option Bool
  mirror_of [] = some false
  mirror_of (boolean b ∷ args) = some b
  mirror_of _ = none

  abbrev rotated : List (Value F T) → Value F T → List (Value F T) → W → Reply × W
  rotated args b rest w = elim (image_arg lua image_of args (codes "rotate")) [
    | err t ↦ (failed t, w)
    | ok i ↦ elim (angle_of b) [
      | none ↦ (failed (codes "SipiImage.rotate(): Incorrect  arguments"), w)
      | some angle ↦ elim (mirror_of rest) [
        | none ↦ (failed (codes "IIIFImage.rotate(): Incorrect  argument for mirror"), w)
        | some mirror ↦ changed (codes "rotate") (handle.rotate i angle mirror w)
      ]
    ]
  ]

  unfoldable pub image_rotate : List (Value F T) → W → Reply × W
  unfolding image_arg
  image_rotate (a ∷ b ∷ []) w = rotated (a ∷ b ∷ []) b [] w
  image_rotate (a ∷ b ∷ c ∷ []) w = rotated (a ∷ b ∷ c ∷ []) b (c ∷ []) w
  image_rotate _ w = (failed (codes "SipiImage.rotate(): Incorrect number of arguments"), w)

  -- What comes of the call is not looked at.
  unfoldable pub image_topleft : List (Value F T) → W → Reply × W
  unfolding image_arg
  image_topleft (a ∷ []) w = elim (image_arg lua image_of (a ∷ []) (codes "topleft")) [
    | err t ↦ (failed t, w)
    | ok i ↦ (affirmed, (handle.topleft i w).1)
  ]
  image_topleft _ w = (failed (codes "SipiImage.topleft(): Incorrect number of arguments"), w)

  unfoldable pub image_mimetype_consistency : List (Value F T) → W → Reply
  unfolding image_arg coerce_string
  image_mimetype_consistency (a ∷ b ∷ c ∷ []) w =
      elim (image_arg lua image_of (a ∷ b ∷ c ∷ []) (codes "mimetype_consistency")) [
        | err t ↦ failed t
        | ok i ↦
            elim (handle.mimetype_consistency i (unwrap_or (coerce_string lua b) [])
              (unwrap_or (coerce_string lua c) []) w) [
                | ok check ↦ flag check
                | err msg ↦ failed (codes "SipiImage.mimetype_consistency(): " ++ msg)
              ]
      ]
  image_mimetype_consistency _ w =
      failed (codes "SipiImage.mimetype_consistency(): Incorrect number of arguments")
