-- ===== src/Paths/Tests.antt =====
-- Paths below an image root.
use sipi.Common.{true, false, Option, none, some, Text, codes, ◌=t=◌, ◌≡◌, ◌⊎◌, refl, if◌then◌else◌}
use sipi.Paths.{
  contains_traversal, build_request_path, validate_resolved_path, resolved, not_found, traversal,
}
use sipi.Paths.Within.{Within, validate_resolved_path_lem}

contains_traversal_test : contains_traversal (codes "a/%2E%2e/b") ≡ true
unfolding contains_traversal
contains_traversal_test = refl

build_request_path_test :
    build_request_path (codes "/images") (codes "unit") (codes "lena.jp2") true
    ≡ codes "/images/unit/lena.jp2"
unfolding build_request_path
build_request_path_test = refl

lena_passes : contains_traversal (codes "unit/lena..jp2") ≡ false
unfolding contains_traversal
lena_passes = refl

abbrev canonicalize : Text → Option Text
canonicalize p = if p =t= codes "/images/x" then some (codes "/images2/x") else none

validate_resolved_path_lem_example :
    ((canonicalize (codes "/images/x") ≡ none)
      × (validate_resolved_path canonicalize (codes "/images/x") (codes "/images") ≡ not_found))
    ⊎ ((p : Text) × (canonicalize (codes "/images/x") ≡ some p)
        × ((Within (codes "/images") p
              × (validate_resolved_path canonicalize (codes "/images/x") (codes "/images")
                  ≡ resolved p))
            ⊎ ((Within (codes "/images") p → ⊥)
                × (validate_resolved_path canonicalize (codes "/images/x") (codes "/images")
                    ≡ traversal))))
validate_resolved_path_lem_example =
    validate_resolved_path_lem canonicalize (codes "/images/x") (codes "/images")
