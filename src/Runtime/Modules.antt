-- ===== src/Runtime/Modules.antt =====
-- What a script can require.
use sipi.Common.{
  ℕ, [], ◌∷◌, ◌++◌, Bool, true, false, not, Option, Text, codes, if◌then◌else◌, Result, ok, err,
  ◌≡◌, ◌≢◌, refl, sym, arith, Lacks, subst, Bool-cases, inl, inr,
}
use sipi.Runtime.{
  FileSystem, Lua, BytecodeCache, LoadError, not_found, io, compile, load_function, is_word,
  all_words, is_valid_module_name, module_path, Found, loader, refused, searched, searcher,
}

-- A name within a directory: not empty, with no slash and no dot.
abbrev pub IsPlainName : Text → Type 0
IsPlainName name = (name ≢ []) × Lacks b'/' name × Lacks b'.' name

all_words-Lacks : (c : ℕ) (name : Text) → is_word c ≡ false → all_words name ≡ true → Lacks c name
all_words-Lacks c [] n h = tt
all_words-Lacks c (b ∷ name) n h = elim (Bool-cases (is_word b)) [
  | inl w ↦ (λ e. cc, all_words-Lacks c name n (ground arith))
  | inr w ↦ cc
]

is_valid_module_name-IsPlainName :
    (name : Text) → is_valid_module_name name ≡ true → IsPlainName name
unfolding is_valid_module_name
is_valid_module_name-IsPlainName [] h = cc
is_valid_module_name-IsPlainName (b ∷ name) h =
    (λ e. cc, all_words-Lacks b'/' (b ∷ name) refl h, all_words-Lacks b'.' (b ∷ name) refl h)

searched-loader :
    {F : Type 0} (path q : Text) (f : F) (r : Result LoadError F)
    → searched path r ≡ ok (loader f q)
    → (r ≡ ok f) × (q ≡ path)
unfolding searched
searched-loader path q f (ok g) h = (cc, cc)
searched-loader path q f (err (not_found p)) h = cc
searched-loader path q f (err (io p t)) h = cc
searched-loader path q f (err (compile t)) h = cc

module _ {F B : Type 0} (lua : Lua F B) (fs : FileSystem) (dir : Text) where
  -- A module that a script gets is loaded, in time, from the file of a plain name in the script directory.
  pub searcher-Inside :
      (expired : Bool) (name q : Text) (f : F) (cache : BytecodeCache B)
      → (searcher lua fs dir expired name cache).0 ≡ ok (loader f q)
      → (expired ≡ false)
        × IsPlainName name
        × (q ≡ module_path dir name)
        × ((load_function lua fs q cache).0 ≡ ok f)
  unfolding searcher
  searcher-Inside true name q f cache h = cc
  searcher-Inside false name q f cache h = at (is_valid_module_name name) refl h
    where
      found : Result LoadError F × BytecodeCache B
      found = load_function lua fs (module_path dir name) cache

      chosen : Bool → Result (Option LoadError) (Found F) × BytecodeCache B
      chosen b =
          if not b
          then (
            ok (
                refused (
                  codes "\n\tmodule name '"
                  ++ (name ++ codes "' not permitted (script-dir modules only)"))),
            cache,
          )
          else (searched (module_path dir name) found.0, found.1)

      at :
          (b : Bool)
          → is_valid_module_name name ≡ b
          → (chosen b).0 ≡ ok (loader f q)
          → ◌≡◌ {A = Bool} false false
            × IsPlainName name
            × (q ≡ module_path dir name)
            × ((load_function lua fs q cache).0 ≡ ok f)
      at true v e =
          let (r, s) = searched-loader (module_path dir name) q f found.0 e in
          (
            refl,
            is_valid_module_name-IsPlainName name v,
            s,
            subst (λ t. (load_function lua fs t cache).0 ≡ ok f) (sym s) r,
          )
      at false v e = cc
