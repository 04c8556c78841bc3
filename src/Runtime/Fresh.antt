-- ===== src/Runtime/Fresh.antt =====
-- Loading through the bytecode cache, one call after another, against compiling the file each time.
use sipi.Common.{
  ℕ, List, [], ◌∷◌, Bool, true, false, ◌&&◌, Option, none, some, Text, ◌==◌, ◌=t=◌, eq_iff, ==_iff,
  if◌then◌else◌, Result, ok, err, ◌≡◌, refl, sym, ap, subst, ◌∙◌, All, fetch_add, ok-injective, ap₂,
}
use sipi.Runtime.{
  FileSystem, Lua, CachedChunk, BytecodeCache, LoadError, io, chunk_name, skip_shebang, as_compile,
  stamp, new, get_chunk, insert_chunk, current, compile_source, miss, load_function,
}

-- A call: what the file system answers, and the path.
abbrev pub Load : Type 0
Load = FileSystem × Text

some-injective : {A : Type 0} {a b : A} → ◌≡◌ {A = Option A} (some a) (some b) → a ≡ b
some-injective e = cc

module _ {F B : Type 0} (lua : Lua F B) where
  -- The specification: the file is compiled.
  abbrev pub load_directly : Load → Result LoadError F
  load_directly (fs, path) = elim (stamp fs path) [
    | err e ↦ err e
    | ok s ↦ compile_source lua fs path
  ]

  abbrev pub load_each : BytecodeCache B → List Load → List (Result LoadError F)
  load_each cache [] = []
  load_each cache ((fs, path) ∷ calls) =
      (load_function lua fs path cache).0 ∷ load_each (load_function lua fs path cache).1 calls

  abbrev pub directly : List Load → List (Result LoadError F)
  directly [] = []
  directly (call ∷ calls) = load_directly call ∷ directly calls

  -- Bytecode is loaded as the function that it was dumped from.
  abbrev pub Dumps : Type 0
  Dumps =
      (name source : Text) (f : F)
      → lua.load_text name source ≡ ok f
      → lua.load_binary name (lua.dump f) ≡ ok f

  module _ (content : Text → ℕ → ℕ → Text) where
    -- A file that can be looked up can be read, and its path, time and size determine its content.
    abbrev pub Stable : Load → Type 0
    Stable (fs, path) =
        (mtime len : ℕ)
        → stamp fs path ≡ ok (mtime, len)
        → fs.read path ≡ ok (content path mtime len)

    -- The chunk is what the file compiles to at the chunk's time and size.
    abbrev Compiled : Text × CachedChunk B → Type 0
    Compiled (path, c) =
        as_compile (lua.load_binary (chunk_name path) c.bytecode)
        ≡ as_compile (lua.load_text (chunk_name path) (skip_shebang (content path c.mtime c.len)))

    get_chunk-Compiled :
        (path : Text) (cs : List (Text × CachedChunk B)) (c : CachedChunk B)
        → All Compiled cs
        → get_chunk path cs ≡ some c
        → Compiled (path, c)
    unfolding get_chunk
    get_chunk-Compiled path [] c h e = cc
    get_chunk-Compiled path ((p, d) ∷ cs) c h e =
        at (p =t= path) refl (get_chunk-Compiled path cs c h.1) e
      where
        at :
            (b : Bool)
            → p =t= path ≡ b
            → (get_chunk path cs ≡ some c → Compiled (path, c))
            → (if b then some d else get_chunk path cs) ≡ some c
            → Compiled (path, c)
        at true t rest e =
            subst (λ q. Compiled (q, c)) ((eq_iff p path).0 t)
              (subst (λ q. Compiled (p, q)) (some-injective e) h.0)
        at false t rest e = rest e

    current-Compiled :
        (path : Text) (mtime len : ℕ) (o : Option (CachedChunk B)) (c : CachedChunk B)
        → ((d : CachedChunk B) → o ≡ some d → Compiled (path, d))
        → current mtime len o ≡ some c
        → as_compile (lua.load_binary (chunk_name path) c.bytecode)
          ≡ as_compile (lua.load_text (chunk_name path) (skip_shebang (content path mtime len)))
    unfolding current
    current-Compiled path mtime len none c h e = cc
    current-Compiled path mtime len (some d) c h e =
        at (d.mtime == mtime) (d.len == len) refl refl e
      where
        at :
            (a b : Bool)
            → d.mtime == mtime ≡ a
            → d.len == len ≡ b
            → (if a && b then some d else none) ≡ some c
            → as_compile (lua.load_binary (chunk_name path) c.bytecode)
              ≡ as_compile (lua.load_text (chunk_name path) (skip_shebang (content path mtime len)))
        at true true s t e =
            subst
              (λ q.
                as_compile (lua.load_binary (chunk_name path) q.bytecode)
                ≡ as_compile
                    (lua.load_text (chunk_name path) (skip_shebang (content path mtime len))))
              (some-injective e)
              (rw (← (==_iff d.mtime mtime).0 s, ← (==_iff d.len len).0 t) (h d refl))
        at true false s t e = cc
        at false b s t e = cc

    module _ (dumps : Dumps) (fs : FileSystem) (path : Text) (stable : Stable (fs, path)) where
      compile_source_lem :
          (mtime len : ℕ)
          → stamp fs path ≡ ok (mtime, len)
          → compile_source lua fs path
            ≡ as_compile (lua.load_text (chunk_name path) (skip_shebang (content path mtime len)))
      unfolding compile_source
      compile_source_lem mtime len e = at (fs.read path) (stable mtime len e)
        where
          at :
              (r : Result Text Text)
              → r ≡ ok (content path mtime len)
              → (elim r as (λ x. Result LoadError F) [
                | err t ↦ err (io path t)
                | ok source ↦ as_compile (lua.load_text (chunk_name path) (skip_shebang source))
              ])
                ≡ as_compile
                    (lua.load_text (chunk_name path) (skip_shebang (content path mtime len)))
          at (err t) e = cc
          at (ok source) e = cc

      dumped :
          (mtime len : ℕ) (f : F)
          → stamp fs path ≡ ok (mtime, len)
          → compile_source lua fs path ≡ ok f
          → Compiled (path, record { mtime = mtime; len = len; bytecode = lua.dump f })
      dumped mtime len f e c =
          at (lua.load_text (chunk_name path) (skip_shebang (content path mtime len))) refl
            (sym (compile_source_lem mtime len e) ∙ c)
        where
          at :
              (r : Result Text F)
              → lua.load_text (chunk_name path) (skip_shebang (content path mtime len)) ≡ r
              → as_compile r ≡ ok f
              → as_compile (lua.load_binary (chunk_name path) (lua.dump f)) ≡ as_compile r
          at (ok g) d c =
              ap as_compile (
                dumps (chunk_name path) (skip_shebang (content path mtime len)) f
                  (d ∙ ap ok (ok-injective c)))
              ∙ sym c
          at (err t) d c = cc

      miss_lem :
          (mtime len : ℕ) (cache : BytecodeCache B)
          → stamp fs path ≡ ok (mtime, len)
          → All Compiled cache.chunks
          → ((miss lua fs mtime len path cache).0 ≡ compile_source lua fs path)
            × All Compiled (miss lua fs mtime len path cache).1.chunks
      unfolding miss
      miss_lem mtime len cache e h = at (compile_source lua fs path) (λ f c. dumped mtime len f e c)
        where
          missed : BytecodeCache B
          missed = record cache { misses = fetch_add cache.misses }

          stored : F → BytecodeCache B
          stored f = record missed {
            chunks =
                insert_chunk path (record { mtime = mtime; len = len; bytecode = lua.dump f })
                  missed.chunks;
          }

          after : Result LoadError F → Result LoadError F × BytecodeCache B
          after r = elim r [ err x ↦ (err x, missed) | ok f ↦ (ok f, stored f) ]

          at :
              (r : Result LoadError F)
              → ((f : F)
                  → r ≡ ok f
                  → Compiled (path, record { mtime = mtime; len = len; bytecode = lua.dump f }))
              → ((after r).0 ≡ r) × All Compiled (after r).1.chunks
          at (err x) d = (refl, h)
          at (ok f) d = (refl, (d f refl, h))

      load_lem :
          (cache : BytecodeCache B)
          → All Compiled cache.chunks
          → ((load_function lua fs path cache).0 ≡ load_directly (fs, path))
            × All Compiled (load_function lua fs path cache).1.chunks
      unfolding load_function
      load_lem cache h = at (stamp fs path) refl
        where
          hit : CachedChunk B → Result LoadError F × BytecodeCache B
          hit c = (
            as_compile (lua.load_binary (chunk_name path) c.bytecode),
            record cache { hits = fetch_add cache.hits },
          )

          after : ℕ → ℕ → Option (CachedChunk B) → Result LoadError F × BytecodeCache B
          after mtime len o = elim o [ some c ↦ hit c | none ↦ miss lua fs mtime len path cache ]

          at_chunk :
              (mtime len : ℕ) (o : Option (CachedChunk B))
              → stamp fs path ≡ ok (mtime, len)
              → current mtime len (get_chunk path cache.chunks) ≡ o
              → ((after mtime len o).0 ≡ compile_source lua fs path)
                × All Compiled (after mtime len o).1.chunks
          at_chunk mtime len none e d = miss_lem mtime len cache e h
          at_chunk mtime len (some c) e d = (
            current-Compiled path mtime len (get_chunk path cache.chunks) c
                  (λ x y. get_chunk-Compiled path cache.chunks x h y) d
                ∙ sym (compile_source_lem mtime len e),
            h,
          )

          at :
              (s : Result LoadError (ℕ × ℕ))
              → stamp fs path ≡ s
              → ((elim s as (λ x. Result LoadError F × BytecodeCache B) [
                | err e ↦ (err e, cache)
                | ok (mtime, len) ↦
                    after mtime len (current mtime len (get_chunk path cache.chunks))
              ]).0
                  ≡ elim s [ err e ↦ err e | ok t ↦ compile_source lua fs path ])
                × All Compiled
                    (elim s as (λ x. Result LoadError F × BytecodeCache B) [
                      | err e ↦ (err e, cache)
                      | ok (mtime, len) ↦
                          after mtime len (current mtime len (get_chunk path cache.chunks))
                    ]).1.chunks
          at (err x) e = (refl, h)
          at (ok (mtime, len)) e =
              at_chunk mtime len (current mtime len (get_chunk path cache.chunks)) e refl

    load_each_lem :
        (calls : List Load) (cache : BytecodeCache B)
        → Dumps
        → All Stable calls
        → All Compiled cache.chunks
        → load_each cache calls ≡ directly calls
    load_each_lem [] cache dumps st h = refl
    load_each_lem ((fs, path) ∷ calls) cache dumps st h =
        let (e, k) = load_lem dumps fs path st.0 cache h in
        ap₂ ◌∷◌ e (load_each_lem calls (load_function lua fs path cache).1 dumps st.1 k)

    -- Loads through the cache, one after another, give what compiling each file anew gives, errors
    -- included, if dumped functions load as themselves and the path, time and size of a file that can be
    -- looked up determine its content.
    pub load_each-directly :
        (calls : List Load) → Dumps → All Stable calls → load_each new calls ≡ directly calls
    load_each-directly calls dumps st = load_each_lem calls new dumps st tt
