-- ===== src/Fuzzy.antt =====
-- frontend/src/lib/fuzzySearch.ts: the score of a query against a target, and the ranked search.
pub mod Scan
pub mod Scores
pub mod Ranking
pub mod Items
mod Tests
use cloudscale_commerce.Prelude.{
  ℕ, zero, suc, ◌+◌, Bool, true, false, not, if◌then◌else◌, List, [], ◌∷◌, map, filter, foldl,
  length, ◌==◌,
}
use cloudscale_commerce.Number.{Number, nought, one}
use cloudscale_commerce.Text.{Text, text_eq, trim, includes}

-- The counters of the loop. The part of the query that is left stands for `qIdx`.
pub record Tally : Type 0 where
  pub matches : ℕ
  pub gaps : ℕ
  pub left : Text

-- `while (qIdx < q.length && tIdx < t.length)`: one round for each unit of the target, while there
-- is query left.
pub scan : (matches gaps : ℕ) → (q t : Text) → Tally
scan matches gaps [] t = record { matches = matches; gaps = gaps; left = [] }
scan matches gaps (c ∷ q) [] = record { matches = matches; gaps = gaps; left = c ∷ q }
scan matches gaps (c ∷ q) (d ∷ t) =
    let found = scan (matches + 1) gaps q t in
    let missed = scan matches (gaps + 1) (c ∷ q) t in if c == d then found else missed

pub record FuzzySearchResult (T N : Type 0) : Type 0 where
  pub item : T
  pub score : N

module _ {N : Type 0} ⦃num : Number N⦄ where
  open num use {decimal, add, sub, mul, div, le, lt}

  of_nat : ℕ → N
  of_nat n = decimal n 0

  -- `Math.min` and `Math.max` of two numbers.
  min_of : N → N → N
  min_of x y = if le x y then x else y

  max_of : N → N → N
  max_of x y = if le x y then y else x

  -- `0.8 + (q.length / t.length) * 0.2`
  substring_score : Text → Text → N
  unfolding of_nat
  substring_score q t =
      add (decimal 8 1) (mul (div (of_nat (length q)) (of_nat (length t))) (decimal 2 1))

  -- What the loop's counters are worth.
  tally_score : Text → Text → Tally → N
  unfolding of_nat min_of max_of
  tally_score q t tally =
      let penalty = mul (of_nat tally.gaps) (decimal 1 2) in
      let score =
        sub (add (decimal 5 1) (mul (div (of_nat tally.matches) (of_nat (length t))) (decimal 3 1)))
          penalty in
      if not (tally.matches == length q)
      then nought
      else max_of (decimal 1 1) (min_of (decimal 9 1) score)

  -- The score of two texts that are in lower case and trimmed.
  plain_score : Text → Text → N
  unfolding substring_score tally_score
  plain_score q t =
      if text_eq q []
      then one
      else if text_eq t []
      then nought
      else if text_eq q t
      then one
      else if includes t q
      then substring_score q t
      else tally_score q t (scan 0 0 q t)

  -- `Math.max(...scores, 0)`
  max_score : List N → N
  unfolding max_of
  max_score = foldl max_of nought

  module _ {T : Type 0} where
    pub is_match : FuzzySearchResult T N → Bool
    is_match res = lt nought res.score

    -- `sort` is stable: an item goes behind those that the comparison `b.score - a.score` puts before
    -- it, and before its equals that came later.
    insert : FuzzySearchResult T N → List (FuzzySearchResult T N) → List (FuzzySearchResult T N)
    insert a [] = a ∷ []
    insert a (b ∷ rest) =
        let later = insert a rest in if lt a.score b.score then b ∷ later else a ∷ b ∷ rest

    pub sort : List (FuzzySearchResult T N) → List (FuzzySearchResult T N)
    sort [] = []
    sort (a ∷ rest) = insert a (sort rest)

  -- `to_lower` is `toLowerCase` of the runtime.
  module _ (to_lower : Text → Text) where
    pub fuzzy_match_score : (query target : Text) → N
    fuzzy_match_score query target = plain_score (trim (to_lower query)) (trim (to_lower target))

    module _ {T : Type 0} where
      pub score_item : Text → (T → List Text) → T → FuzzySearchResult T N
      score_item query get_strings item = record {
        item = item;
        score = max_score (map (fuzzy_match_score query) (get_strings item));
      }

      pub fuzzy_search : List T → (query : Text) → (T → List Text) → List (FuzzySearchResult T N)
      fuzzy_search items query get_strings =
          if text_eq query []
          then map (λ item. record { item = item; score = one }) items
          else sort (filter is_match (map (score_item query get_strings) items))
