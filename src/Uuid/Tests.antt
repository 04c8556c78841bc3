-- ===== src/Uuid/Tests.antt =====
-- UUIDs, with those of the tests of the repository.
use sipi.Common.{◌≡◌, none, refl, codes}
use sipi.Uuid.{SoleUuid, base62, from_base62, new_v4}

abbrev largest : SoleUuid
largest = record { ab = 18446744073709551615; cd = 18446744073709551615 }

largest_test : base62 largest ≡ codes "LygHa16AHYF-LygHa16AHYF"
unfolding base62
largest_test = refl

smallest_test : base62 (new_v4 0 0) ≡ codes "4GG-AzL8n0Y58m8"
unfolding base62 new_v4
smallest_test = refl

overflow_test : from_base62 (codes "LygHa16AHYZ-0") ≡ none
unfolding from_base62
overflow_test = refl
