-- ===== src/Fuzzy/Ranking.antt =====
-- The order and the content of the results.
use mathlib.Core.List.{Perm}
use mathlib.Core.List.Perm
use cloudscale_commerce.Prelude.{
  ◌≡◌, true, false, Bool-cases, inl, inr, List, [], ◌∷◌, map, filter, All, arith,
}
use cloudscale_commerce.Number.{Number, IsRounding, ◌≼◌, nought}
use cloudscale_commerce.Text.{Text, text_eq}
use cloudscale_commerce.Fuzzy.{FuzzySearchResult, score_item, is_match, insert, sort, fuzzy_search}

match-refl : {N : Type 0} ⦃num : Number N⦄ → IsRounding N → (x : N) → num.lt nought x ≡ true → x ≼ x
match-refl laws x h = laws.le_refl x (laws.lt_to_le nought x h)

module _ {N T : Type 0} ⦃num : Number N⦄ where
  -- Every result scores at least as much as those behind it.
  abbrev pub IsDescending : List (FuzzySearchResult T N) → Type 0
  IsDescending [] = Unit
  IsDescending (a ∷ rest) = All (λ b. b.score ≼ a.score) rest × IsDescending rest

  abbrev pub IsMatch : FuzzySearchResult T N → Type 0
  IsMatch r = num.lt nought r.score ≡ true

  insert-Perm :
      (a : FuzzySearchResult T N) (rs : List (FuzzySearchResult T N)) → Perm (insert a rs) (a ∷ rs)
  unfolding insert
  insert-Perm a [] = Perm.refl (a ∷ [])
  insert-Perm a (b ∷ rest) = elim (Bool-cases (num.lt a.score b.score)) [
    | inl behind ↦ rw behind (Perm.trans (Perm.cons b (insert-Perm a rest)) (Perm.swap a b rest))
    | inr here ↦ rw here (Perm.refl (a ∷ b ∷ rest))
  ]

  sort-Perm : (rs : List (FuzzySearchResult T N)) → Perm (sort rs) rs
  unfolding sort
  sort-Perm [] = Perm.refl []
  sort-Perm (a ∷ rest) = Perm.trans (insert-Perm a (sort rest)) (Perm.cons a (sort-Perm rest))

  insert-All :
      (P : FuzzySearchResult T N → Type 0) (a : FuzzySearchResult T N)
      (rs : List (FuzzySearchResult T N))
      → P a
      → All P rs
      → All P (insert a rs)
  unfolding insert
  insert-All P a [] p h = (p, tt)
  insert-All P a (b ∷ rest) p (q, h) = elim (Bool-cases (num.lt a.score b.score)) [
    | inl behind ↦ rw behind (q, insert-All P a rest p h)
    | inr here ↦ rw here (p, (q, h))
  ]

  pub sort-All :
      (P : FuzzySearchResult T N → Type 0) (rs : List (FuzzySearchResult T N))
      → All P rs
      → All P (sort rs)
  unfolding sort
  sort-All P [] h = tt
  sort-All P (a ∷ rest) (p, h) = insert-All P a (sort rest) p (sort-All P rest h)

  filter-IsMatch : (rs : List (FuzzySearchResult T N)) → All IsMatch (filter is_match rs)
  unfolding is_match
  filter-IsMatch [] = tt
  filter-IsMatch (r ∷ rs) = ground (arith, filter-IsMatch rs)

  module _ (laws : IsRounding N) where
    open laws use {le_trans, not_lt, lt_to_le}

    All-below :
        (a b : FuzzySearchResult T N) (rs : List (FuzzySearchResult T N))
        → b.score ≼ a.score
        → All (λ r. r.score ≼ b.score) rs
        → All (λ r. r.score ≼ a.score) rs
    All-below a b [] h k = tt
    All-below a b (r ∷ rs) h (k, ks) = (le_trans _ _ _ k h, All-below a b rs h ks)

    insert-IsDescending :
        (a : FuzzySearchResult T N) (rs : List (FuzzySearchResult T N))
        → IsMatch a
        → All IsMatch rs
        → IsDescending rs
        → IsDescending (insert a rs)
    unfolding insert
    insert-IsDescending a [] p h d = (tt, tt)
    insert-IsDescending a (b ∷ rest) p (q, h) (db, d) = elim (Bool-cases (num.lt a.score b.score)) [
      | inl behind ↦ rw behind (
        insert-All (λ r. r.score ≼ b.score) a rest (lt_to_le a.score b.score behind) db,
        insert-IsDescending a rest p h d,
      )
      | inr here ↦
          let top = not_lt a.score b.score (match-refl laws _ p) (match-refl laws _ q) here in
          rw here ((top, All-below a b rest top db), (db, d))
    ]

    sort-IsDescending :
        (rs : List (FuzzySearchResult T N)) → All IsMatch rs → IsDescending (sort rs)
    unfolding sort
    sort-IsDescending [] h = tt
    sort-IsDescending (a ∷ rest) (p, h) =
        insert-IsDescending a (sort rest) p (sort-All IsMatch rest h) (sort-IsDescending rest h)

    -- For a query that is not empty the results are the items that score more than nought, each as
    -- often as it stands among the items, from the best score down.
    pub fuzzy_search-IsDescending :
        (to_lower : Text → Text) (items : List T) (query : Text) (get_strings : T → List Text)
        → text_eq query [] ≡ false
        → let results = fuzzy_search {N = N} to_lower items query get_strings in
          IsDescending results
          × All IsMatch results
          × Perm results (filter is_match (map (score_item to_lower query get_strings) items))
    unfolding fuzzy_search
    fuzzy_search-IsDescending to_lower items query get_strings asked =
        rw asked (sort-IsDescending found matches, sort-All IsMatch found matches, sort-Perm found)
      where
        found : List (FuzzySearchResult T N)
        found = filter is_match (map (score_item to_lower query get_strings) items)

        matches : All IsMatch found
        matches = filter-IsMatch (map (score_item to_lower query get_strings) items)
