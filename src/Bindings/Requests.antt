-- ===== src/Bindings/Requests.antt =====
-- The functions that read the request and its uploads. The engine's file operations are parameters.
use sipi.Common.{
  List, [], ◌∷◌, ◌++◌, Bool, Option, none, some, Text, codes, is_empty, ◌=t=◌, split_once,
  to_ascii_lowercase, trim, unwrap_or, if◌then◌else◌, Result, ok, err,
}
use sipi.Settings.{Value, integer, string}
use sipi.Bindings.{
  Lua, Reply, done, flag, fields, failed, RequestData, upload_tmpname, coerce_string,
}

-- The first header of the name.
unfoldable pub header_of : Text → List (Text × Text) → Option Text
header_of name [] = none
header_of name ((n, v) ∷ hs) = let rest = header_of name hs in if n =t= name then some v else rest

-- The base 64 decoder, and then the text that is read lossily, are one parameter.
unfoldable pub require_auth : (Text → Option Text) → RequestData → List (Text × Text)
unfolding header_of trim
require_auth decode req =
    let auth = unwrap_or (header_of (codes "authorization") req.headers) [] in
    if is_empty auth then (codes "status", codes "NOAUTH") ∷ [] else elim (split_once b' ' auth) [
      | none ↦ (codes "status", codes "ERROR") ∷ (codes "message", codes "Auth-type not known") ∷ []
      | some (scheme, rest) ↦
          if to_ascii_lowercase scheme =t= codes "basic"
          then elim (split_once b':' (unwrap_or (decode (trim rest)) [])) [
            | some (username, password) ↦
                (codes "status", codes "BASIC")
                ∷ (codes "username", username)
                ∷ (codes "password", password)
                ∷ []
            | none ↦
                (codes "status", codes "ERROR")
                ∷ (codes "message", codes "Auth-string not valid")
                ∷ []
          ]
          else if to_ascii_lowercase scheme =t= codes "bearer"
          then (codes "status", codes "BEARER") ∷ (codes "token", rest) ∷ []
          else []
    ]

abbrev pub mime_fields : Text → Option Text → List (Text × Text)
mime_fields mimetype none = (codes "mimetype", mimetype) ∷ []
mime_fields mimetype (some charset) = (codes "mimetype", mimetype) ∷ (codes "charset", charset) ∷ []

abbrev sniffed : Result Text (Text × Option Text) → Reply
sniffed (ok (mimetype, charset)) = fields (mime_fields mimetype charset)
sniffed (err msg) = failed (codes "server.file_mimetype() failed: " ++ msg)

abbrev compared : Result Text Bool → Reply
compared (ok consistent) = flag consistent
compared (err msg) = failed (codes "server.file_mimeconsistency() failed: " ++ msg)

-- How a rename or a copy can fail.
pub data RenameError : Type 0 where
  no_permission across_systems other_error : RenameError

pub data CopyError : Type 0 where
  not_opened not_created not_copied : CopyError

unfoldable pub copy_file_impl : Text → Result CopyError (Unit {0}) → Reply
copy_file_impl who (ok u) = done
copy_file_impl who (err not_opened) = failed (
    codes "'"
    ++ (who
        ++ (codes "(from,to)': Couldn't open "
            ++ ((if who =t= codes "lua_copytmpfile" then codes "input" else codes "source")
                ++ codes " file"))))
copy_file_impl who (err not_created) =
    failed (codes "'" ++ (who ++ codes "(from,to)': Couldn't open output file"))
copy_file_impl who (err not_copied) =
    failed (codes "'" ++ (who ++ codes "(from,to)': Copying data failed"))

abbrev moved : Result RenameError (Unit {0}) → Reply
moved (ok u) = done
moved (err no_permission) = failed (codes "'server.fs.moveFile(from,to)': no permission!")
moved (err across_systems) =
    failed (codes "'server.fs.moveFile(from,to)': move across file systems not allowd!")
moved (err other_error) = failed (codes "'server.fs.moveFile(from,to)': error moving file!")

module _ {F T : Type 0} (lua : Lua F T) (req : RequestData) where
  unfoldable pub file_mimetype :
      (Text → Result Text (Text × Option Text)) → List (Value F T) → Reply
  unfolding upload_tmpname
  file_mimetype engine [] = failed (codes "server.file_mimetype(): no path given")
  file_mimetype engine (integer i ∷ args) = elim (upload_tmpname req i) [
    | none ↦
        failed
          (codes "'server.file_mimetype()': Could not read data of uploaded file. Invalid index?")
    | some u ↦ sniffed (engine u.tmpname)
  ]
  file_mimetype engine (string path ∷ args) = sniffed (engine path)
  file_mimetype engine (_ ∷ args) = failed (codes "server.file_mimetype(): path is not a string")

  -- The path, the name and the type expected go to the engine.
  unfoldable pub file_mimeconsistency :
      (Text → Text → Text → Result Text Bool) → List (Value F T) → Reply
  unfolding upload_tmpname
  file_mimeconsistency engine [] = failed (codes "server.file_mimetype(): no path given")
  file_mimeconsistency engine (integer i ∷ args) = elim (upload_tmpname req i) [
    | none ↦ failed (
        codes
          "'server.file_mimeconsistency()': Could not read data of uploaded file. Invalid index?")
    | some u ↦ compared (engine u.tmpname u.origname u.mimetype)
  ]
  file_mimeconsistency engine (string path ∷ args) = compared (engine path path [])
  file_mimeconsistency engine (_ ∷ args) =
      failed (codes "server.file_mimeconsistency(): path is not a string")

  unfoldable pub copy_tmpfile :
      (Text → Text → Result CopyError (Unit {0})) → List (Value F T) → Reply
  unfolding upload_tmpname coerce_string copy_file_impl
  copy_tmpfile copy (integer i ∷ to ∷ args) = elim (upload_tmpname req i) [
    | none ↦ failed (codes "'lua_copytmpfile(from,to)': parameter 'from' is not a valid index.")
    | some u ↦ elim (coerce_string lua to) [
      | none ↦ failed (codes "'lua_copytmpfile(from,to)': Couldn't open output file")
      | some target ↦ copy_file_impl (codes "lua_copytmpfile") (copy u.tmpname target)
    ]
  ]
  copy_tmpfile copy (a ∷ b ∷ args) =
      failed (codes "'lua_copytmpfile(from,to)': parameter 'from' must be an integer")
  copy_tmpfile copy _ = failed (codes "'lua_copytmpfile(from,to)': not enough parameters")

  unfoldable pub fs_copyfile :
      (Text → Text → Result CopyError (Unit {0})) → List (Value F T) → Reply
  unfolding copy_file_impl
  fs_copyfile copy (string from ∷ string to ∷ args) =
      copy_file_impl (codes "lua_fs_copyfile") (copy from to)
  fs_copyfile copy (a ∷ b ∷ args) =
      failed (codes "'lua_fs_copyfile(from,to)': Couldn't open source file")
  fs_copyfile copy _ = failed (codes "'lua_fs_copyfile(from,to)': not enough parameters")

  -- The path of the file to move, or why there is none.
  unfoldable pub move_from : Value F T → Result Text Text
  unfolding upload_tmpname
  move_from (integer i) = elim (upload_tmpname req i) [
    | some u ↦ ok u.tmpname
    | none ↦ err (
        codes "'server.fs.moveFile(from,to)': Could not read data of uploaded file. Invalid index?")
  ]
  move_from (string s) = ok s
  move_from _ = err (codes "server.fs.moveFile(from,to): filename must be string or index")

  unfoldable pub fs_movefile :
      (Text → Text → Result RenameError (Unit {0})) → List (Value F T) → Reply
  unfolding move_from
  fs_movefile rename (a ∷ b ∷ args) = elim (move_from a) [
    | err t ↦ failed t
    | ok from ↦ elim b [
      | string to ↦ moved (rename from to)
      | _ ↦ failed (codes "'server.fs.moveFile(from,to)': error moving file!")
    ]
  ]
  fs_movefile rename _ = failed (codes "'server.fs.moveFile(from,to)': not enough parameters")
