-- ===== src/Info/Tests.antt =====
-- The pyramid of a photograph.
use sipi.Common.{Text, codes, ◌*◌, ◌^◌, ◌≤◌, List, [], ◌∷◌, ◌≡◌, refl, arith}
use sipi.Info.{levels_from, levels, pyramid_scale_factors, powers_to}
use sipi.Info.Pyramid.{Least, levels-Least}

pyramid_test : pyramid_scale_factors 6000 4000 1024 1024 ≡ 1 ∷ 2 ∷ 4 ∷ 8 ∷ []
unfolding pyramid_scale_factors levels levels_from powers_to
pyramid_test = refl

levels-Least_example : (6000 ≤ 1024 * 2 ^ levels 6000 1024) × Least 6000 1024 (levels 6000 1024)
levels-Least_example = levels-Least 6000 1024 (omega arith) (omega arith) (omega arith)

-- The pairs of a login.
abbrev pairs : List (Text × Text)
pairs =
    (codes "tokenUrl", codes "/t")
    ∷ (codes "cookieUrl", codes "/c")
    ∷ (codes "label", codes "Log in")
    ∷ []
