-- ===== src/Docroot/Tests.antt =====
-- A docroot with one image.
use sipi.Common.{ℕ, true, false, Option, none, some, Text, codes, ◌=t=◌, ◌≡◌, refl, if◌then◌else◌}
use sipi.Http.Sample.{sample_http}
use sipi.Access.{Request}
use sipi.Docroot.{Disk, failed, serve_static_blocking}
use sipi.Docroot.Handler.{DocrootAction, answered, region, script, serve_docroot}
use sipi.Docroot.Files.{Inside, serve_docroot-Inside}

abbrev disk : Disk
disk = record {
  canonicalize = λ p.
      if p =t= codes "/srv"
      then some p
      else if p =t= codes "/srv/a.png"
      then some p
      else if p =t= codes "/srv/b.png"
      then some (codes "/etc/b.png")
      else none;
  metadata = λ p. some (record { is_file = true; size = 10; modified = none });
  mimetype = λ p. some (codes "image/png");
}

abbrev get : Text → Request
get path = record {
  method = codes "GET";
  path = path;
  header_str = λ k. if k =t= codes "range" then some (codes "bytes=2-5") else none;
  contains_key = λ k. k =t= codes "range";
}

abbrev where_of : {M : Type 0} → DocrootAction M → Option (Text × ℕ × ℕ)
where_of (region r path offset len) = some (path, offset, len)
where_of (answered r) = none
where_of (script p d) = none

abbrev serve : Text → Option (Text × ℕ × ℕ)
unfolding serve_docroot
serve path =
    where_of (serve_docroot sample_http disk (codes "/srv") (codes "/server/") some (get path))

range_test : serve (codes "/server/a.png") ≡ some (codes "/srv/a.png", 2, 4)
unfolding serve
range_test = refl

-- A link out of the docroot is refused.
escape_test :
    serve_static_blocking disk (codes "/srv") (codes "/srv/b.png") none false none none ≡ failed 400
unfolding serve_static_blocking
escape_test = refl

serve_docroot-Inside_example : Inside sample_http disk (codes "/srv") (
    serve_docroot sample_http disk
      (codes "/srv")
      (codes "/server/")
      some
      (get (codes "/server/a.png")))
serve_docroot-Inside_example =
    serve_docroot-Inside sample_http disk (codes "/srv") (codes "/server/") some
      (get (codes "/server/a.png"))
