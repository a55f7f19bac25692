-- ===== src/Fuzzy/Items.antt =====
-- What holds of the items holds of the results.
use cloudscale_commerce.Prelude.{◌≡◌, false, List, [], ◌∷◌, map, All, All-filter}
use cloudscale_commerce.Number.{Number}
use cloudscale_commerce.Text.{Text, text_eq}
use cloudscale_commerce.Fuzzy.{score_item, is_match, fuzzy_search}
use cloudscale_commerce.Fuzzy.Ranking.{sort-All}

module _ (N : Type 0) {T : Type 0} ⦃num : Number N⦄ where
  score_item-All :
      (P : T → Type 0) (to_lower : Text → Text) (query : Text) (get_strings : T → List Text)
      (items : List T)
      → All P items
      → All (λ r. P r.item) (map (score_item {N = N} to_lower query get_strings) items)
  unfolding score_item
  score_item-All P to_lower query get_strings [] h = tt
  score_item-All P to_lower query get_strings (x ∷ items) (p, h) =
      (p, score_item-All P to_lower query get_strings items h)

  -- What holds of every item holds of every result.
  pub fuzzy_search-All :
      (P : T → Type 0) (to_lower : Text → Text) (items : List T) (query : Text)
      (get_strings : T → List Text)
      → text_eq query [] ≡ false
      → All P items
      → All (λ r. P r.item) (fuzzy_search {N = N} to_lower items query get_strings)
  unfolding fuzzy_search
  fuzzy_search-All P to_lower items query get_strings asked h = rw asked (
      sort-All (λ r. P r.item) _
        (All-filter (λ r. P r.item) is_match _
          (score_item-All P to_lower query get_strings items h)))
