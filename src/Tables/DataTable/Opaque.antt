-- ===== src/Tables/DataTable/Opaque.antt =====
-- The search of a table whose columns show every row by the same text.
use cloudscale_commerce.Prelude.{
  ◌≡◌, refl, Bool, false, ◌⊎◌, inl, inr, Bool-cases, none, some, List, [], ◌∷◌, filter, find, any,
  String, str_eq,
}
use cloudscale_commerce.Text.{Text, text_eq, includes}
use cloudscale_commerce.Sort.{Sign}
use cloudscale_commerce.Tables.DataTable.{DataColumn, TableState, matches, searched, filtered}

filter_none :
    {T : Type 0} (p : T → Bool) → ((row : T) → p row ≡ false) → (rows : List T) → filter p rows ≡ []
filter_none p never [] = refl
filter_none p never (row ∷ rows) = rw (never row) (filter_none p never rows)

any_none : {T : Type 0} (p : T → Bool) → ((x : T) → p x ≡ false) → (xs : List T) → any p xs ≡ false
any_none p never [] = refl
any_none p never (x ∷ xs) = rw (never x) (any_none p never xs)

module _ {T : Type 0} (shown : Text) where
  -- Every column shows every row by the text.
  abbrev pub AllShow : List (DataColumn T) → Type 0
  AllShow [] = Unit
  AllShow (c ∷ columns) = ((row : T) → c.text row ≡ shown) × AllShow columns

  find_cases :
      (p : DataColumn T → Bool) (columns : List (DataColumn T))
      → AllShow columns
      → (find p columns ≡ none)
        ⊎ ((col : DataColumn T) × (find p columns ≡ some col) × ((row : T) → col.text row ≡ shown))
  find_cases p [] h = inl refl
  find_cases p (c ∷ columns) (this, those) = elim (Bool-cases (p c)) [
    | inl here ↦ inr (c, rw here refl, this)
    | inr there ↦ rw there (find_cases p columns those)
  ]

  module _ (to_lower : Text → Text) (compare : Text → Text → Sign) (columns : List (DataColumn T))
      (all_show : AllShow columns) where
    searched-AllShow :
        (q : Text) (row : T) (id : String)
        → includes (to_lower shown) q ≡ false
        → searched to_lower compare columns q row id ≡ false
    unfolding searched matches
    searched-AllShow q row id other = elim (find_cases (λ col. str_eq col.id id) columns all_show) [
      | inl missing ↦ rw (searched, missing) refl
      | inr (col, found, same) ↦ rw (searched, found, same row) other
    ]

    -- A search for a text that is no part of that one, both in lower case, keeps no row.
    pub filtered-AllShow :
        (s : TableState) (rows : List T)
        → text_eq s.search [] ≡ false
        → includes (to_lower shown) (to_lower s.search) ≡ false
        → filtered to_lower compare columns s rows ≡ []
    unfolding filtered
    filtered-AllShow s rows asks other = rw asks (
        filter_none _
          (λ row. any_none _ (λ id. searched-AllShow (to_lower s.search) row id other) _) rows)
