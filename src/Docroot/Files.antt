-- ===== src/Docroot/Files.antt =====
-- What the file server may read.
use sipi.Common.{
  ◌+◌, ◌≤◌, [], ◌++◌, Bool, true, false, ◌&&◌, ◌||◌, Option, none, some, Text, codes, is_empty,
  ◌=t=◌, ◌≡◌, refl, sym, subst, arith, inl, inr, unwrap_or, ok, ok-injective, Result-cases,
  Option-cases, Bool-cases, strip_prefix,
}
use sipi.Http.{Http}
use sipi.Paths.{contains_traversal}
use sipi.Paths.Within.{Within, validate_resolved_path_lem}
use sipi.Access.{Request}
use sipi.Ranges.{parse_byte_range, extension_of, decode_path_suffix}
use sipi.Ranges.Bounds.{parse_byte_range-InFile}
use sipi.Docroot.{
  StaticOutcome, streamed, head, failed, Metadata, Disk, resolve_docroot_file, static_special,
  static_binary, special_type, describe, serve_static_blocking,
}
use sipi.Docroot.Handler.{
  trim_start_slashes, trim_end_slashes, DocrootAction, answered, script, region, is_script,
  of_outcome, serve_file_of, serve_docroot, with_slash,
}

module _ (disk : Disk) where
  -- A regular file in the docroot, as the operating system resolves both.
  pub record Served (docroot path : Text) : Type 0 where
    pub root : Text
    pub at_root : disk.canonicalize docroot ≡ some root
    pub inside : Within root path
    pub meta : Metadata
    pub has_meta : disk.metadata path ≡ some meta
    pub is_regular : meta.is_file ≡ true

  resolve_docroot_file-Served :
      (docroot infile path : Text)
      → resolve_docroot_file disk docroot infile ≡ ok path
      → Served docroot path
  unfolding resolve_docroot_file
  resolve_docroot_file-Served docroot infile path h =
      elim (Option-cases (disk.canonicalize docroot)) [
        | inl e ↦ absurd (cc (rw (resolve_docroot_file, e) at h))
        | inr (root, e) ↦ elim (validate_resolved_path_lem disk.canonicalize infile root) [
          | inl (f, g) ↦ absurd (cc (rw (resolve_docroot_file, e, g) at h))
          | inr (p, f, inr (w, g)) ↦ absurd (cc (rw (resolve_docroot_file, e, g) at h))
          | inr (p, f, inl (w, g)) ↦ elim (Option-cases (disk.metadata p)) [
            | inl i ↦ absurd (cc (rw (resolve_docroot_file, e, g, i) at h))
            | inr (m, i) ↦ elim (Bool-cases m.is_file) [
              | inr j ↦ absurd (cc (rw (resolve_docroot_file, e, g, i, j) at h))
              | inl j ↦
                  subst (Served docroot) (ok-injective (rw (resolve_docroot_file, e, g, i, j) at h))
                    (record {
                      root = root;
                      at_root = e;
                      inside = w;
                      meta = m;
                      has_meta = i;
                      is_regular = j;
                    })
            ]
          ]
        ]
      ]

  -- A region of the file at that path, within its size.
  abbrev pub Fits : Text → Metadata → StaticOutcome → Type 0
  Fits path m (streamed status headers p offset len) = (p ≡ path) × (offset + len ≤ m.size)
  Fits path m (head status headers) = Unit
  Fits path m (failed status) = Unit

  module _ (path : Text) (m : Metadata) (known : disk.metadata path ≡ some m) where
    static_special-Fits :
        (content_type : Text) (is_head : Bool) (origin : Option Text)
        → Fits path m (static_special disk path content_type is_head origin)
    unfolding static_special
    static_special-Fits content_type true origin = rw (static_special, known) tt
    static_special-Fits content_type false origin = rw (static_special, known) (refl, omega arith)

    static_binary-Fits :
        (infile mime : Text) (range : Option Text) (is_head : Bool) (origin : Option Text)
        → Fits path m (static_binary disk path infile mime range is_head origin)
    unfolding static_binary
    static_binary-Fits infile mime none true origin = rw (static_binary, known) tt
    static_binary-Fits infile mime none false origin = rw (static_binary, known) (refl, omega arith)
    static_binary-Fits infile mime (some raw) is_head origin =
        elim (Option-cases (parse_byte_range raw m.size)) [
          | inl e ↦ rw (static_binary, known, e) tt
          | inr ((start, end_), e) ↦
              let (a, b) = parse_byte_range-InFile raw m.size (start, end_) e in
              elim (Bool-cases is_head) [
                | inl f ↦ rw (static_binary, known, e, f) tt
                | inr f ↦ rw (static_binary, known, e, f) (refl, omega arith)
              ]
        ]

    describe-Fits :
        (infile : Text) (ext : Option Text) (is_head : Bool) (range origin : Option Text)
        → Fits path m (describe disk path infile ext is_head range origin)
    unfolding describe
    describe-Fits infile ext is_head range origin = elim (Option-cases (special_type disk ext)) [
      | inr (ct, e) ↦ rw (describe, e) (static_special-Fits ct is_head origin)
      | inl e ↦ elim (Option-cases (disk.mimetype path)) [
        | inl f ↦ rw (describe, e, f) tt
        | inr (mime, f) ↦
            elim (Bool-cases (unwrap_or ext [] =t= codes "html" && mime =t= codes "text/html")) [
              | inl g ↦
                  rw (describe, e, f, g)
                    (static_special-Fits (codes "text/html; charset=utf-8") is_head origin)
              | inr g ↦ rw (describe, e, f, g) (static_binary-Fits infile mime range is_head origin)
            ]
      ]
    ]

module _ {M : Type 0} (http : Http M) (disk : Disk) (docroot : Text) where
  -- What an action may do: run a script, or stream a region, of a regular file in the docroot.
  abbrev pub Inside : DocrootAction M → Type 0
  Inside (answered r) = Unit
  Inside (script path d) = Served disk docroot path × (d ≡ docroot)
  Inside (region r path offset len) = (s : Served disk docroot path) × (offset + len ≤ s.meta.size)

  of_outcome-Inside :
      (path : Text) (s : Served disk docroot path) (o : StaticOutcome)
      → Fits disk path s.meta o
      → Inside (of_outcome http o)
  unfolding of_outcome
  of_outcome-Inside path s (streamed status headers p offset len) (e, b) =
      subst (λ q. (s : Served disk docroot q) × (offset + len ≤ s.meta.size)) (sym e) (s, b)
  of_outcome-Inside path s (head status headers) f = tt
  of_outcome-Inside path s (failed status) f = tt

  serve_file_of-Inside :
      (wwwroute suffix : Text) (req : Request)
      → Inside (serve_file_of http disk docroot wwwroute suffix req)
  unfolding serve_file_of serve_static_blocking of_outcome
  serve_file_of-Inside wwwroute suffix req =
      let infile = docroot ++ suffix in
      elim (Result-cases (resolve_docroot_file disk docroot infile)) [
        | inl (status, e) ↦ elim (Bool-cases (is_script (extension_of suffix))) [
          | inl f ↦ rw (serve_file_of, f, e) tt
          | inr f ↦ rw (serve_file_of, serve_static_blocking, f, e) tt
        ]
        | inr (path, e) ↦
            let s = resolve_docroot_file-Served disk docroot infile path e in
            elim (Bool-cases (is_script (extension_of suffix))) [
              | inl f ↦ rw (serve_file_of, f, e) (s, refl)
              | inr f ↦
                  rw (serve_file_of, serve_static_blocking, f, e)
                    (of_outcome-Inside path s _ (
                      describe-Fits disk path s.meta s.has_meta infile (extension_of suffix)
                        (req.method =t= codes "HEAD") (req.header_str (codes "range"))
                        (req.header_str (codes "origin"))))
            ]
      ]

  -- Whatever the request, the file server answers, runs a script, or streams a region, and the script or
  -- the file of the region is a regular file in the docroot, as the operating system resolves both; the
  -- region lies within the size of that file.
  pub serve_docroot-Inside :
      (wwwroute : Text) (percent_decode : Text → Option Text) (req : Request)
      → Inside (serve_docroot http disk docroot wwwroute percent_decode req)
  unfolding serve_docroot
  serve_docroot-Inside wwwroute percent_decode req =
      elim (Bool-cases (req.method =t= codes "OPTIONS")) [
        | inl e ↦ rw (serve_docroot, e) tt
        | inr e ↦ elim (Option-cases (strip_prefix (trim_end_slashes wwwroute) req.path)) [
          | inl f ↦ rw (serve_docroot, e, f) tt
          | inr (enc, f) ↦ elim (Option-cases (decode_path_suffix percent_decode enc)) [
            | inl g ↦ rw (serve_docroot, e, f, g) tt
            | inr (suffix, g) ↦ elim (Bool-cases (contains_traversal (trim_start_slashes suffix))) [
              | inl i ↦ rw (serve_docroot, e, f, g, i) tt
              | inr i ↦ elim (Bool-cases (is_empty suffix || suffix =t= codes "/")) [
                | inl j ↦ rw (serve_docroot, e, f, g, i, j) tt
                | inr j ↦
                    rw (serve_docroot, e, f, g, i, j)
                      (serve_file_of-Inside wwwroute (with_slash suffix) req)
              ]
            ]
          ]
        ]
      ]
