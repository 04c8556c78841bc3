-- ===== src/Runtime/Tests.antt =====
-- A virtual machine whose functions are their sources, and a directory with one module.
use sipi.Common.{
  ℕ, List, [], ◌∷◌, ◌++◌, false, Text, codes, ◌=t=◌, if◌then◌else◌, ok, err, ◌≡◌, refl, arith,
}
use sipi.Runtime.{
  missing, FileSystem, Lua, not_found, new, load_function, loader, refused, searcher, module_path,
  stamp,
}
use sipi.Runtime.Fresh.{Load, load_each, directly, load_each-directly, Stable}
use sipi.Runtime.Modules.{IsPlainName, searcher-Inside}

abbrev lua : Lua Text Text
lua = record {
  load_text = λ name source. ok source;
  load_binary = λ name bytecode. ok bytecode;
  dump = λ f. f;
}

abbrev path : Text
path = codes "/s/util.lua"

-- The file, at a time that is also its size's.
abbrev at_time : ℕ → FileSystem
at_time n = record {
  metadata = λ p. if p =t= path then ok (record { modified = ok n; len = n }) else err missing;
  read = λ p. ok (codes "#!lua\nreturn " ++ n ∷ []);
}

abbrev calls : List Load
calls = (at_time 3, path) ∷ (at_time 3, path) ∷ (at_time 4, path) ∷ (at_time 4, codes "/x") ∷ []

calls_test :
    load_each lua new calls
    ≡ ok (codes "\nreturn " ++ 3 ∷ [])
      ∷ ok (codes "\nreturn " ++ 3 ∷ [])
      ∷ ok (codes "\nreturn " ++ 4 ∷ [])
      ∷ err (not_found (codes "/x"))
      ∷ []
unfolding load_function
calls_test = refl

content : Text → ℕ → ℕ → Text
content p mtime len = codes "#!lua\nreturn " ++ mtime ∷ []

at_time-Stable : (n : ℕ) (p : Text) → Stable lua content (at_time n, p)
unfolding content stamp
at_time-Stable n p m l h = ground arith

load_each-directly_example : load_each lua new calls ≡ directly lua calls
load_each-directly_example =
    load_each-directly lua content calls (λ name source f e. refl)
      (
        at_time-Stable 3 path,
        (at_time-Stable 3 path, (at_time-Stable 4 path, (at_time-Stable 4 (codes "/x"), tt))),
      )

refused_test :
    (searcher lua (at_time 3) (codes "/s") false (codes "../util") new).0
    ≡ ok (refused (codes "\n\tmodule name '../util' not permitted (script-dir modules only)"))
unfolding searcher
refused_test = refl

found_test :
    (searcher lua (at_time 3) (codes "/s") false (codes "util") new).0
    ≡ ok (loader (codes "\nreturn " ++ 3 ∷ []) path)
unfolding searcher
found_test = refl

searcher-Inside_example :
    (false ≡ false)
    × IsPlainName (codes "util")
    × (path ≡ module_path (codes "/s") (codes "util"))
    × ((load_function lua (at_time 3) path new).0 ≡ ok (codes "\nreturn " ++ 3 ∷ []))
searcher-Inside_example =
    searcher-Inside lua (at_time 3) (codes "/s") false (codes "util") path
      (codes "\nreturn " ++ 3 ∷ []) new found_test
