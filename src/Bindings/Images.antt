-- ===== src/Bindings/Images.antt =====
-- `SipiImage.write` and `SipiImage.send`: src/scripting/rust/bindings/image.rs. The images and the engine are
-- parameters.
pub mod Parameters
pub mod ServiceFiles
pub mod Operations
mod Tests
use sipi.Common.{
  ℕ, ◌+◌, ◌-◌, List, [], ◌∷◌, ◌++◌, Bool, true, false, not, ◌&&◌, ◌||◌, Option, none, some, Text,
  codes, leb, take, drop, ◌=t=◌, trim, parse_i32, is_some, to_ascii_lowercase, if◌then◌else◌,
  Result, ok, err, ◌>>=◌, ◌≡◌, refl,
}
use sipi.Serve.Seam.{rfind}
use sipi.Settings.{Value, string, table, show_integer}
use sipi.Bindings.{Lua, Reply, done, text, failed, raised, coerce_string}

unfoldable pub among : Text → List Text → Bool
among s [] = false
among s (t ∷ ts) = let rest = among s ts in s =t= t || rest

abbrev pub sprofile_values : List Text
sprofile_values =
    codes "PROFILE0"
    ∷ codes "PROFILE1"
    ∷ codes "PROFILE2"
    ∷ codes "PART2"
    ∷ codes "CINEMA2K"
    ∷ codes "CINEMA4K"
    ∷ codes "BROADCAST"
    ∷ codes "CINEMA2S"
    ∷ codes "CINEMA4S"
    ∷ codes "CINEMASS"
    ∷ codes "IMF"
    ∷ []

abbrev pub corder_values : List Text
corder_values = codes "LRCP" ∷ codes "RLCP" ∷ codes "RPCL" ∷ codes "PCRL" ∷ codes "CPRL" ∷ []

pub record WriteParams : Type 0 where
  pub params : List (Text × Text)
  pub file_role : Option Text
  pub origname : Option Text
  pub mimetype : Option Text

-- Why the parameters are refused: with `false` and a message, or by raising an error.
pub data ParamsRefusal : Type 0 where
  params_fail : Text → ParamsRefusal
  params_raise : Text → ParamsRefusal

abbrev invalid_key : Text → Result ParamsRefusal WriteParams
invalid_key key = err (params_raise (codes "SipiImage.write(): invalid " ++ (key ++ codes "!")))

abbrev pub add_param : Text → Text → WriteParams → WriteParams
add_param key value p = record p { params = p.params ++ (key, value) ∷ [] }

-- One of the keys and its value.
unfoldable pub write_param : Text → Text → WriteParams → Result ParamsRefusal WriteParams
unfolding among
write_param key value p =
    if key =t= codes "Sprofile"
    then if among value sprofile_values then ok (add_param key value p) else invalid_key key
    else if key =t= codes "Creversible" || key =t= codes "Cuse_sop"
    then if value =t= codes "yes" || value =t= codes "no"
      then ok (add_param key value p)
      else invalid_key key
    else if key =t= codes "Clayers" || key =t= codes "Clevels"
    then elim (parse_i32 (trim value)) [
      | some i ↦ ok (add_param key (show_integer i) p)
      | none ↦ invalid_key key
    ]
    else if key =t= codes "Corder"
    then if among value corder_values then ok (add_param key value p) else invalid_key key
    else if among key (codes "Cprecincts" ∷ codes "Cblk" ∷ codes "rates" ∷ codes "quality" ∷ [])
    then ok (add_param key value p)
    else if key =t= codes "file_role"
    then if value =t= codes "service-file"
      then ok (record p { file_role = some value })
      else err (
          params_raise (
            codes
              "SipiImage.write(): file_role must be \"service-file\" (other roles not yet implemented)."))
    else if key =t= codes "origname"
    then ok (record p { origname = some value })
    else if key =t= codes "mimetype"
    then ok (record p { mimetype = some value })
    else err (params_raise (codes "SipiImage.write(): invalid compression parameter!"))

unfoldable pub map_extension : Text → Bool → Option Text
map_extension extension allow_jp2 =
    if extension =t= codes "tif" || extension =t= codes "tiff"
    then some (codes "tif")
    else if extension =t= codes "jpg" || extension =t= codes "jpeg"
    then some (codes "jpg")
    else if extension =t= codes "png"
    then some (codes "png")
    else if extension =t= codes "j2k" || extension =t= codes "jpx"
    then some (codes "jpx")
    else if extension =t= codes "jp2" && allow_jp2
    then some (codes "jpx")
    else none

abbrev file_start : Option ℕ → ℕ
file_start none = 0
file_start (some i) = i + 1

-- The basename and the extension, in lower case.
unfoldable pub split_path : Text → Text × Text
unfolding rfind
split_path imgpath =
    let start = file_start (rfind b'/' imgpath) in
    elim (rfind b'.' imgpath) [
      | none ↦ (drop start imgpath, [])
      | some dot ↦
          if leb start dot
          then (
            take (dot - start) (drop start imgpath),
            to_ascii_lowercase (drop (dot + 1) imgpath),
          )
          else (drop start imgpath, [])
    ]

-- What is asked of the engine.
pub data Job : Type 0 where
  write_file : Text → Text → List (Text × Text) → Option (Text × Text) → Job
  send_bytes : Text → List (Text × Text) → Job

-- The names that a service file is stamped with.
unfoldable pub essentials_of : Text → WriteParams → Result Text (Option (Text × Text))
essentials_of ftype p = elim p.file_role [
  | none ↦ ok none
  | some role ↦ elim p.origname [
    | none ↦
        err (
          codes
            "SipiImage.write(): file_role=\"service-file\" requires both origname and mimetype.")
    | some origname ↦ elim p.mimetype [
      | none ↦ err (
          codes
            "SipiImage.write(): file_role=\"service-file\" requires both origname and mimetype.")
      | some mimetype ↦
          if ftype =t= codes "jpx" || ftype =t= codes "tif"
          then ok (some (origname, mimetype))
          else err (
              codes
                "SipiImage.write(): file_role=\"service-file\" requires JP2 or pyramidal TIFF output (Service Files only live in those two carriers per ADR-0009).")
    ]
  ]
]

-- The job of a write, from its path and its parameters, or the error that is raised.
unfoldable pub write_job : Text → WriteParams → Result Text Job
unfolding split_path map_extension essentials_of
write_job imgpath p =
    let (basename, extension) = split_path imgpath in
    elim (map_extension extension true) [
      | none ↦ err (codes "SipiImage.write(): unsupported file format")
      | some ftype ↦ essentials_of ftype p >>= λ essentials. ok (
          if basename =t= codes "http" || basename =t= codes "HTTP"
          then send_bytes ftype p.params
          else write_file ftype imgpath p.params essentials)
    ]

abbrev pub no_params : WriteParams
no_params = record { params = []; file_role = none; origname = none; mimetype = none }

module _ {F T I : Type 0} (lua : Lua F T) (image_of : Value F T → Option I) where
  unfoldable pub validate_write_params :
      List (Result Text (Value F T × Value F T)) → WriteParams → Result ParamsRefusal WriteParams
  unfolding write_param coerce_string
  validate_write_params [] p = ok p
  validate_write_params (err e ∷ ps) p = err (params_raise e)
  validate_write_params (ok (k, v) ∷ ps) p = elim (coerce_string lua k) [
    | none ↦
        err (
          params_fail
            (codes "SipiImage.write(): Incorrect compression value name: Must be string!"))
    | some key ↦ elim (coerce_string lua v) [
      | none ↦
          err
            (params_fail (codes "SipiImage.write(): Incorrect compression value: Must be string!"))
      | some value ↦ write_param key value p >>= λ q. validate_write_params ps q
    ]
  ]

  unfoldable pub image_arg : List (Value F T) → Text → Result Text I
  image_arg [] who = err (codes "SipiImage." ++ (who ++ codes "(): not a valid image"))
  image_arg (a ∷ args) who = elim (image_of a) [
    | some i ↦ ok i
    | none ↦ err (codes "SipiImage." ++ (who ++ codes "(): not a valid image"))
  ]

  -- The parameters of a third argument that is a table.
  unfoldable pub params_arg : List (Value F T) → Result ParamsRefusal WriteParams
  unfolding validate_write_params
  params_arg (table t ∷ args) = validate_write_params (lua.pairs t) no_params
  params_arg _ = ok no_params

  abbrev refusal : ParamsRefusal → Reply
  refusal (params_fail t) = failed t
  refusal (params_raise t) = raised t

  abbrev pub plan_with : I → Text → Result ParamsRefusal WriteParams → Result Reply (I × Text × Job)
  plan_with i imgpath (err r) = err (refusal r)
  plan_with i imgpath (ok p) = elim (write_job imgpath p) [
    | err t ↦ err (raised t)
    | ok job ↦ ok (i, imgpath, job)
  ]

  -- The image, the path and the job of a write, or the reply that refuses it.
  unfoldable pub write_plan : List (Value F T) → Result Reply (I × Text × Job)
  unfolding image_arg params_arg write_job
  write_plan args = elim (image_arg args (codes "write")) [
    | err t ↦ err (failed t)
    | ok i ↦ elim (drop 1 args) [
      | string imgpath ∷ rest ↦ plan_with i imgpath (params_arg rest)
      | _ ↦ err (failed (codes "SipiImage.write(): Incorrect arguments"))
    ]
  ]

  abbrev get_ext : List (Value F T) → Option Text
  get_ext [] = none
  get_ext (a ∷ args) = coerce_string lua a

  module _ {W : Type 0} (engine : I → Job → W → Result Text (Unit {0}) × W) where
    abbrev pub written : Reply → Result Text (Unit {0}) × W → Reply × W
    written r (ok u, w) = (r, w)
    written r (err msg, w) = (failed msg, w)

    unfoldable pub image_write : List (Value F T) → W → Reply × W
    unfolding write_plan
    image_write args w = elim (write_plan args) [
      | err r ↦ (r, w)
      | ok (i, imgpath, job) ↦ written (text imgpath) (engine i job w)
    ]

    unfoldable pub image_send : List (Value F T) → W → Reply × W
    unfolding image_arg map_extension coerce_string
    image_send args w = elim (image_arg args (codes "send")) [
      | err t ↦ (failed t, w)
      | ok i ↦ elim (get_ext (drop 1 args)) [
        | none ↦ (failed (codes "SipiImage.send(): Incorrect arguments"), w)
        | some ext ↦ elim (map_extension (to_ascii_lowercase ext) false) [
          | none ↦ (raised (codes "SipiImage.send(): unsupported file format"), w)
          | some ftype ↦ written done (engine i (send_bytes ftype []) w)
        ]
      ]
    ]
