-- ===== src/Ranges/Tests.antt =====
-- Ranges of a file of ten bytes.
use sipi.Common.{◌≡◌, refl, some, none, codes}
use sipi.Ranges.{parse_byte_range, decimal, extension_of}
use sipi.Ranges.Bounds.{InFile, parse_byte_range-InFile}

open_end : parse_byte_range (codes " bytes= 4-") 10 ≡ some (4, 9)
unfolding parse_byte_range
open_end = refl

inverted_test : parse_byte_range (codes "bytes=5-4") 10 ≡ none
unfolding parse_byte_range
inverted_test = refl

decimal_test : decimal 1024 ≡ codes "1024"
unfolding decimal
decimal_test = refl

extension_of_test : extension_of (codes "/a.b/c.tar.GZ") ≡ some (codes "gz")
unfolding extension_of
extension_of_test = refl

parse_byte_range-InFile_example : InFile 10 (4, 9)
parse_byte_range-InFile_example = parse_byte_range-InFile (codes " bytes= 4-") 10 (4, 9) open_end
