-- ===== src/Bindings/Files.antt =====
-- The functions of `server.fs`: a file system is a record of its calls, each of which may fail with a text.
use sipi.Common.{
  ℕ, ◌-◌, ◌%◌, ◌^◌, List, [], ◌∷◌, ◌++◌, Bool, not, ◌&&◌, Option, none, some, ℤ, pos, negsuc, Text,
  codes, starts_with, if◌then◌else◌, Result, ok, err,
}
use sipi.Settings.{Value, integer, string}
use sipi.Bindings.{Lua, coerce_string, Reply, done, flag, text, number_of, list, failed}

-- `FileType`, by the first of the questions asked that it answers.
pub data FileType : Type 0 where
  file directory char_device block_device symlink fifo socket unknown : FileType

pub data Mode : Type 0 where
  r_ok w_ok x_ok f_ok : Mode

pub record Disk (W : Type 0) : Type 0 where
  pub file_type : W → Text → Result Text FileType
  pub mtime : W → Text → Result Text ℤ
  -- The entries, of which some cannot be read.
  pub read_dir : W → Text → Result Text (List (Option Text))
  pub access : W → Text → Mode → Bool
  pub has_nul : Text → Bool
  pub remove_file : W → Text → Result Text (Unit {0}) × W
  pub create_dir : W → ℕ → Text → Result Text (Unit {0}) × W
  pub remove_dir : W → Text → Result Text (Unit {0}) × W
  pub current_dir : W → Result Text Text

-- `i as u32`: the low 32 bits of the two's complement.
unfoldable pub as_u32 : ℤ → ℕ
as_u32 (pos n) = n % 2 ^ 32
as_u32 (negsuc n) = 2 ^ 32 - 1 - n % 2 ^ 32

abbrev type_name : FileType → Text
type_name file = codes "FILE"
type_name directory = codes "DIRECTORY"
type_name char_device = codes "CHARDEV"
type_name block_device = codes "BLOCKDEV"
type_name symlink = codes "LINK"
type_name fifo = codes "FIFO"
type_name socket = codes "SOCKET"
type_name unknown = codes "UNKNOWN"

-- The entries that can be read, without those whose name begins with a dot.
unfoldable pub visible_names : List (Option Text) → List Text
visible_names [] = []
visible_names (none ∷ es) = visible_names es
visible_names (some name ∷ es) =
    let rest = visible_names es in if starts_with (codes ".") name then rest else name ∷ rest

abbrev as_done : {W : Type 0} → (Text → Text) → Result Text (Unit {0}) × W → Reply × W
as_done message (ok u, d) = (done, d)
as_done message (err e, d) = (failed (message e), d)

module _ {F T : Type 0} (lua : Lua F T) where
  unfoldable pub string_arg : List (Value F T) → Text → Text → Result Text Text
  unfolding coerce_string
  string_arg [] missing not_string = err missing
  string_arg (v ∷ args) missing not_string = elim (coerce_string lua v) [
    | some s ↦ ok s
    | none ↦ err not_string
  ]

  module _ {W : Type 0} (fs : Disk W) where
    abbrev typed : Result Text FileType → Reply
    typed (ok t) = text (type_name t)
    typed (err e) = failed e

    abbrev with_path : Result Text Text → (Text → Reply) → Reply
    with_path (err t) f = failed t
    with_path (ok path) f = f path

    abbrev with_path_on : Result Text Text → W → (Text → Reply × W) → Reply × W
    with_path_on (err t) d f = (failed t, d)
    with_path_on (ok path) d f = f path

    unfoldable pub fs_ftype : W → List (Value F T) → Reply
    unfolding string_arg
    fs_ftype d args =
        with_path
          (string_arg args (codes "'server.fs.ftype()': parameter missing")
            (codes "'server.fs.ftype()': filename is not a string"))
          (λ path. typed (fs.file_type d path))

    unfoldable pub fs_modtime : W → List (Value F T) → Reply
    unfolding string_arg
    fs_modtime d args =
        with_path
          (string_arg args (codes "'server.fs.modtime()': parameter missing")
            (codes "'server.fs.modtime()': filename is not a string"))
          (λ path. elim (fs.mtime d path) [ ok t ↦ number_of t | err e ↦ failed e ])

    unfoldable pub fs_readdir : W → List (Value F T) → Reply
    unfolding string_arg visible_names
    fs_readdir d args =
        with_path
          (string_arg args (codes "'server.fs.readdir()': parameter missing")
            (codes "'server.fs.readdir()': path is not a string"))
          (λ path. elim (fs.read_dir d path) [
            | ok entries ↦ list (visible_names entries)
            | err e ↦ failed (e ++ (codes ": " ++ path))
          ])

    -- A path with a NUL is no C string.
    unfoldable pub access_ok : W → Text → Mode → Bool
    access_ok d path mode = not (fs.has_nul path) && fs.access d path mode

    -- The macro that the four questions come of: `lua_name` is `is_readable` with `r_ok`, `is_writeable` with
    -- `w_ok`, `is_executable` with `x_ok` or `exists` with `f_ok`.
    unfoldable pub fs_access_probe : Text → Mode → W → List (Value F T) → Reply
    unfolding string_arg access_ok
    fs_access_probe lua_name mode d args =
        with_path
          (string_arg args
            (codes "'server.fs." ++ (lua_name ++ codes "(filename)': parameter missing"))
            (codes "'server.fs." ++ (lua_name ++ codes "(filename)': filename is not a string")))
          (λ path. flag (access_ok d path mode))

    unfoldable pub fs_unlink : W → List (Value F T) → Reply × W
    unfolding string_arg
    fs_unlink d args =
        with_path_on
          (string_arg args (codes "'server.fs.unlink(filename)': parameter missing")
            (codes "'server.fs.unlink(filename)': filename is not a string"))
          d
          (λ path. as_done (λ e. e ++ (codes " File to unlink: " ++ path)) (fs.remove_file d path))

    unfoldable pub fs_mkdir : W → List (Value F T) → Reply × W
    unfolding as_u32
    fs_mkdir d (string dir ∷ integer mode ∷ args) =
        as_done (λ e. e) (fs.create_dir d (as_u32 mode) dir)
    fs_mkdir d (string dir ∷ b ∷ args) =
        (failed (codes "'server.fs.mkdir(dirname, mask)': mask is not an integer"), d)
    fs_mkdir d (a ∷ b ∷ args) =
        (failed (codes "'server.fs.mkdir(dirname, mask)': dirname is not a string"), d)
    fs_mkdir d _ = (failed (codes "'server.fs.mkdir(dirname, mask)': parameter missing"), d)

    unfoldable pub fs_rmdir : W → List (Value F T) → Reply × W
    unfolding string_arg
    fs_rmdir d args =
        with_path_on
          (string_arg args (codes "'server.fs.rmdir(dirname)': parameter missing")
            (codes "'server.fs.rmdir(dirname)': dirname is not a string"))
          d (λ path. as_done (λ e. e) (fs.remove_dir d path))

    unfoldable pub fs_getcwd : W → Reply
    fs_getcwd d = elim (fs.current_dir d) [ ok dir ↦ text dir | err e ↦ failed e ]
