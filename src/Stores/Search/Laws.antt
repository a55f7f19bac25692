-- ===== src/Stores/Search/Laws.antt =====
-- The recent searches over any sequence of calls.
use cloudscale_commerce.Prelude.{
  ℕ, zero, suc, ap, length-filter-le, ◌≤◌, ◌≡◌, ◌≢◌, refl, Bool, true, not, Bool-cases, inl, inr,
  List, [], ◌∷◌, filter, take, foldl, length, length-take, All, All-filter, All-take, arith,
}
use cloudscale_commerce.Text.{Text, text_eq, trim}
use cloudscale_commerce.Text.Equality.{text_eq_iff, text_eq_refl}
use cloudscale_commerce.Text.Trim.{trim_idempotent}
use cloudscale_commerce.Stores.Search.{
  Searches, max_searches, is_empty, same_search, add_search, remove_search, clear_history,
}

pub data Action : Type 0 where
  add remove : Text → Action
  clear : Action

-- An entry is trimmed and not empty.
abbrev pub IsCleaned : Text → Type 0
IsCleaned s = (s ≢ []) × (trim s ≡ s)

module _ (to_lower : Text → Text) where
  abbrev Differs : Text → Searches → Type 0
  Differs s = All (λ x. to_lower x ≢ to_lower s)

  -- No two entries agree up to case.
  abbrev pub IsDistinct : Searches → Type 0
  IsDistinct [] = Unit
  IsDistinct (s ∷ rest) = Differs s rest × IsDistinct rest

  pub record IsHistory (searches : Searches) : Type 0 where
    pub few : length searches ≤ max_searches
    pub cleaned : All IsCleaned searches
    pub distinct : IsDistinct searches

  IsDistinct-filter : (p : Text → Bool) (xs : Searches) → IsDistinct xs → IsDistinct (filter p xs)
  IsDistinct-filter p [] d = tt
  IsDistinct-filter p (x ∷ xs) (dx, d) =
      ground (arith, IsDistinct-filter p xs d, All-filter (λ y. to_lower y ≢ to_lower x) p xs dx)

  IsDistinct-take : (n : ℕ) (xs : Searches) → IsDistinct xs → IsDistinct (take n xs)
  IsDistinct-take zero xs d = tt
  IsDistinct-take (suc n) [] d = tt
  IsDistinct-take (suc n) (x ∷ xs) (dx, d) =
      (All-take (λ y. to_lower y ≢ to_lower x) n xs dx, IsDistinct-take n xs d)

  Differs-filter :
      (s : Text) (xs : Searches) → Differs s (filter (λ x. not (same_search to_lower s x)) xs)
  unfolding same_search
  Differs-filter s [] = tt
  Differs-filter s (x ∷ xs) =
      ground (arith, Differs-filter s xs, text_eq_iff (to_lower x) (to_lower s))

  unfoldable pub step : Searches → Action → Searches
  step s (Action.add term) = add_search to_lower term s
  step s (Action.remove term) = remove_search term s
  step s Action.clear = clear_history s

  add_search-IsHistory :
      (term : Text) (s : Searches) → IsHistory s → IsHistory (add_search to_lower term s)
  unfolding add_search
  add_search-IsHistory term s v = elim (Bool-cases (is_empty (trim term))) [
    | inl blank ↦ rw blank v
    | inr found ↦ rw found (record {
      few = omega (arith, length-take 8 (trim term ∷ older));
      cleaned = All-take IsCleaned 8 (trim term ∷ older) (
        (λ e. ground (arith, text_eq_iff (trim term) [], found), trim_idempotent term),
        All-filter IsCleaned (λ x. not (same_search to_lower (trim term) x)) s v.cleaned,
      );
      distinct = IsDistinct-take 8 (trim term ∷ older) (
        Differs-filter (trim term) s,
        IsDistinct-filter (λ x. not (same_search to_lower (trim term) x)) s v.distinct,
      );
    })
  ]
    where
      older : Searches
      older = filter (λ x. not (same_search to_lower (trim term) x)) s

  remove_search-IsHistory :
      (term : Text) (s : Searches) → IsHistory s → IsHistory (remove_search term s)
  unfolding remove_search
  remove_search-IsHistory term s v = record {
    few = omega (arith, v.few, length-filter-le (λ x. not (text_eq x term)) s);
    cleaned = All-filter IsCleaned (λ x. not (text_eq x term)) s v.cleaned;
    distinct = IsDistinct-filter (λ x. not (text_eq x term)) s v.distinct;
  }

  step-IsHistory : (s : Searches) (a : Action) → IsHistory s → IsHistory (step s a)
  unfolding step clear_history
  step-IsHistory s (Action.add term) v = add_search-IsHistory term s v
  step-IsHistory s (Action.remove term) v = remove_search-IsHistory term s v
  step-IsHistory s Action.clear v = record { few = omega arith; cleaned = tt; distinct = tt }

  foldl-IsHistory :
      (s : Searches) (calls : List Action) → IsHistory s → IsHistory (foldl step s calls)
  foldl-IsHistory s [] v = v
  foldl-IsHistory s (a ∷ calls) v = foldl-IsHistory (step s a) calls (step-IsHistory s a v)

  -- After any calls on an empty history there are at most eight searches, each trimmed and not
  -- empty, and no two of them agree up to case.
  pub run-IsHistory : (calls : List Action) → IsHistory (foldl step [] calls)
  run-IsHistory calls =
      foldl-IsHistory [] calls (record { few = omega arith; cleaned = tt; distinct = tt })

  filter_whole : (p : Text → Bool) (xs : Searches) → All (λ x. p x ≡ true) xs → filter p xs ≡ xs
  filter_whole p [] h = refl
  filter_whole p (x ∷ xs) (hx, h) = rw (hx, filter_whole p xs h)

  filter-All : (p : Text → Bool) (xs : Searches) → All (λ x. p x ≡ true) (filter p xs)
  filter-All p [] = tt
  filter-All p (x ∷ xs) = ground (arith, filter-All p xs)

  take_idempotent : (n : ℕ) (xs : Searches) → take n (take n xs) ≡ take n xs
  take_idempotent zero xs = refl
  take_idempotent (suc n) [] = refl
  take_idempotent (suc n) (x ∷ xs) = ap (◌∷◌ x) (take_idempotent n xs)

  -- A search that is made twice in a row leaves the history as the first one did.
  pub add_search_twice :
      (term : Text) (s : Searches)
      → add_search to_lower term (add_search to_lower term s) ≡ add_search to_lower term s
  unfolding add_search
  add_search_twice term s = elim (Bool-cases (is_empty (trim term))) [
    | inl blank ↦ rw blank refl
    | inr found ↦ rw found (
        rw
          (
            text_eq_refl (to_lower (trim term)),
            filter_whole (fresh) (take 7 older)
                (All-take (λ x. fresh x ≡ true) 7 older (filter-All (fresh) s)),
          )
          (ap (◌∷◌ (trim term)) (take_idempotent 7 older)))
  ]
    where
      fresh : Text → Bool
      fresh x = not (same_search to_lower (trim term) x)

      older : Searches
      older = filter fresh s
