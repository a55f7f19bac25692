-- ===== src/Fuzzy/Tests.antt =====
-- Runs of the search of frontend/src/test/phase14.test.ts, and the theorems at concrete texts.
use cloudscale_commerce.Prelude.{ℕ, ◌≡◌, ◌↔◌, refl, List, [], ◌∷◌, map, String}
use cloudscale_commerce.Number.{fixed_point}
use cloudscale_commerce.Text.{Text, literal, trim, text_eq, includes}
use cloudscale_commerce.Fuzzy.{
  scan, plain_score, fuzzy_match_score, max_score, is_match, insert, sort, score_item, fuzzy_search,
}
use cloudscale_commerce.Fuzzy.Scan.{Subseq, scan_iff}

abbrev lower : Text → Text
lower s = s

program : Unit {0}
unfolding scan plain_score fuzzy_match_score max_score is_match insert sort score_item fuzzy_search
    text_eq trim includes
program = tt

abbrev score : String → String → ℕ
score q t = fuzzy_match_score lower (literal q) (literal t)

scores :
    (score "test" "test" ≡ 10_000)
    × (score "" "test" ≡ 10_000)
    × (score "test" "" ≡ 0)
    × (score "app" "apparel" ≡ 8857)
    × (score "ape" "grapes" ≡ 9000)
    × (score "gpe" "grape" ≡ 6600)
unfolding program
scores = (refl, refl, refl, refl, refl, refl)

abbrev items : List Text
items = literal "red shirt" ∷ literal "blue jeans" ∷ literal "shirt" ∷ []

abbrev names : Text → List Text
names t = t ∷ []

best_first :
    map (λ r. r.item) (fuzzy_search {N = ℕ} lower items (literal "shirt") names)
    ≡ literal "shirt" ∷ literal "red shirt" ∷ []
unfolding program
best_first = refl

scan_iff_example :
    ((scan 0 0 (literal "gpe") (literal "grape")).matches ≡ 3)
    ↔ Subseq (literal "gpe") (literal "grape")
scan_iff_example = scan_iff (literal "gpe") (literal "grape")
