-- ===== src/Http/Sample.antt =====
-- A header map for the tests: a list of the inserts, the last first.
use sipi.Common.{
  List, [], ◌∷◌, Bool, true, ◌&&◌, Option, none, some, Text, ◌=t=◌, refl, ltb, leb, is_empty,
  to_ascii_lowercase, if◌then◌else◌,
}
use sipi.Http.{Http}

abbrev pub Pairs : Type 0
Pairs = List (Text × Text)

abbrev pub lookup : Pairs → Text → Option Text
lookup [] k = none
lookup ((n, v) ∷ m) k = if n =t= k then some v else lookup m k

abbrev printable : Text → Bool
printable [] = true
printable (c ∷ s) = leb 32 c && printable s

abbrev pub sample_http : Http Pairs
sample_http = record {
  from_u16 = λ n. if leb 100 n && ltb n 1000 then some n else none;
  from_bytes = λ t. if is_empty t then none else some (to_ascii_lowercase t);
  from_str = λ v. if printable v then some v else none;
  empty = [];
  insert = λ n v m. (n, v) ∷ m;
  get = lookup;
  get-empty = λ k. refl;
  get-insert = λ n v m k. refl;
}
