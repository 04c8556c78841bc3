-- ===== src/Elua/Tests.antt =====
-- A page with two chunks, the second of which has no end.
use sipi.Common.{ℕ, ◌+◌, [], none, some, Text, codes, ◌≡◌, refl}
use sipi.Scripts.{Script, returns, print}
use sipi.Elua.{run_elua, lower_extension}
use sipi.Elua.Pages.{
  Page, unterminated, piece, page_text, IsPage, page_script, run_elua-page_script,
}

-- A chunk prints itself and counts.
abbrev exec : ℕ → Text → Script ℕ
exec n chunk = print chunk (λ done. returns (n + 1))

abbrev code : Text
code = codes "<p><lua>a<b</lua></p><lua>x"

abbrev page : Page
page = piece (codes "<p>") (codes "a<b") (unterminated (codes "</p>") (codes "x"))

code_test : run_elua exec code 0 ≡ page_script exec page 0
unfolding run_elua
code_test = refl

empty_test : run_elua exec [] 0 ≡ returns tt
unfolding run_elua
empty_test = refl

run_elua-page_script_example :
    (p : Page) × IsPage p
    × (page_text p ≡ code)
    × ((v : ℕ) → run_elua exec code v ≡ page_script exec p v)
run_elua-page_script_example = run_elua-page_script exec code

dotfile_test : lower_extension (codes "/scripts/.lua") ≡ none
unfolding lower_extension
dotfile_test = refl

extension_test : lower_extension (codes "/scripts.d/page.x.ELUA/") ≡ some (codes "elua")
unfolding lower_extension
extension_test = refl
