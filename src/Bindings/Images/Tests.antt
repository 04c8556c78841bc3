-- ===== src/Bindings/Images/Tests.antt =====
-- A service file that is written.
use sipi.Common.{[], ◌∷◌, none, some, List, Option, Text, codes, ◌≡◌, refl, Result, ok}
use sipi.Settings.{Value, other, string, table}
use sipi.Bindings.{Lua, text, raised}
use sipi.Bindings.Images.{Job, write_file, image_write}
use sipi.Bindings.Images.ServiceFiles.{Asked, image_write-Asked}

abbrev sample : Lua Text (Unit {0})
sample = record {
  show_number = λ s. s;
  pairs = λ t.
      ok (string (codes "file_role"), string (codes "service-file"))
      ∷ ok (string (codes "origname"), string (codes "a.tif"))
      ∷ ok (string (codes "mimetype"), string (codes "image/tiff"))
      ∷ ok (string (codes "Corder"), string (codes "RPCL"))
      ∷ [];
}

-- The only image.
abbrev the_image : Value Text (Unit {0}) → Option (Unit {0})
the_image other = some tt
the_image _ = none

abbrev engine : Unit {0} → Job → List Job → Result Text (Unit {0}) × List Job
engine i job jobs = (ok tt, job ∷ jobs)

abbrev arguments : Text → List (Value Text (Unit {0}))
arguments path = other ∷ string path ∷ table tt ∷ []

service_test : image_write sample the_image engine (arguments (codes "/d/a.JP2")) [] ≡ (
  text (codes "/d/a.JP2"),
  write_file
        (codes "jpx")
        (codes "/d/a.JP2")
        ((codes "Corder", codes "RPCL") ∷ [])
        (some (codes "a.tif", codes "image/tiff"))
      ∷ [],
)
unfolding image_write
service_test = refl

-- A file in a directory whose name has a dot has no extension.
dot_test :
    image_write sample the_image engine (arguments (codes "/d.tif/a")) []
    ≡ (raised (codes "SipiImage.write(): unsupported file format"), [])
unfolding image_write
dot_test = refl

image_write-Asked_example :
    Asked sample the_image engine []
      (image_write sample the_image engine (arguments (codes "/d/a.jp2")) [])
image_write-Asked_example =
    image_write-Asked sample the_image engine (arguments (codes "/d/a.jp2")) []
