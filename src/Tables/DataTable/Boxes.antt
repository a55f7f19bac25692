-- ===== src/Tables/DataTable/Boxes.antt =====
-- The boxes that a table draws, what the parent is told of them, and the numbers of its footer.
use mathlib.Core.Path.{subst}
use native.Mathlib.Nat.{le-div_iff_mul-le}
use cloudscale_commerce.Prelude.{
  ℕ, zero, suc, ◌+◌, ◌-◌, ◌*◌, ◌/◌, ◌≤◌, ◌<◌, min, max, ◌≡◌, refl, ap, sym, ◌∙◌, Bool, true, not,
  if◌then◌else◌, Bool-cases, inl, inr, some, List, [], ◌∷◌, filter, length, length-take, drop,
  eq_refl, length-drop, All, String, arith,
}
use cloudscale_commerce.Tables.DataTable.{
  DataColumn, TableState, has, ids_from, page_ids, all_selected, toggle_all, selected_from,
  selected_rows, safe_page, total_pages, paged, slice,
}
use cloudscale_commerce.Tables.DataTable.Clicks.{has-toggle_all}
use cloudscale_commerce.Tables.DataTable.View.{
  RowView, visible_columns, row_of, rows_from, rows_of, box, footer_of,
}

-- Every box of the rows has the given value.
abbrev pub AllAre : Bool → List RowView → Type 0
AllAre b drawn = All (λ (r : RowView). r.checked ≡ some b) drawn

-- The pages before the last one are full.
full_before :
    (size k len : ℕ) → 0 < size → k + 1 ≤ max 1 ((len + (size - 1)) / size) → k * size ≤ len
full_before size zero len pos within = omega arith
full_before size (suc k) len pos within =
    let quotient : ℕ = (len + (size - 1)) / size in
    let most : (suc k + 1) * size ≤ len + (size - 1) = (le-div_iff_mul-le pos).0 (omega arith) in
    omega arith

module _ {T : Type 0} where
  -- Ids that do not depend on where a row stands.
  abbrev pub by_row : (T → String) → T → ℕ → String
  by_row id_of row i = id_of row

  selected_from-by_row :
      (id_of : T → String) (idx : ℕ) (items : List T) (s : TableState)
      → selected_from (by_row id_of) idx items s ≡ filter (λ row. has (id_of row) s.selected) items
  unfolding selected_from
  selected_from-by_row id_of idx [] s = refl
  selected_from-by_row id_of idx (row ∷ items) s =
      rw (selected_from-by_row id_of (suc idx) items s) refl

  filter_same :
      (p q : T → Bool)
      → ((row : T) → p row ≡ q row)
      → (items : List T) → filter p items ≡ filter q items
  filter_same p q same [] = refl
  filter_same p q same (row ∷ items) = rw (same row, filter_same p q same items) refl

  rows_from-AllAre :
      (get_row_id : T → ℕ → String) (columns : List (DataColumn T)) (s : TableState) (b : Bool)
      (i : ℕ) (items : List T)
      → ((id : String) → has id (ids_from get_row_id i items) ≡ true → has id s.selected ≡ b)
      → AllAre b (rows_from get_row_id true columns s i items)
  unfolding rows_from row_of box ids_from has
  rows_from-AllAre get_row_id columns s b i [] h = tt
  rows_from-AllAre get_row_id columns s b i (row ∷ items) h = (
    ap some (h (get_row_id row i) (ground (arith, eq_refl (get_row_id row i)))),
    rows_from-AllAre get_row_id columns s b (i + 1) items (λ id there. h id (ground arith)),
  )

  -- The footer counts the rows of the page: from its first to its last, and no row beyond the last one
  -- there is. The page size and the page are not nought.
  pub footer_of-paged :
      (s : TableState) (items : List T)
      → 0 < s.page_size
      → 1 ≤ s.page
      → let footer = footer_of s items in
        (footer.until + 1 ≡ footer.from + length (paged s items)) × (footer.until ≤ footer.total)
  unfolding footer_of paged slice safe_page total_pages
  footer_of-paged s items pos one =
      let page : ℕ = safe_page s items in
      let size : ℕ = s.page_size in
      let k : ℕ = page - 1 in
      let whole : page ≡ k + 1 = omega arith in
      let ends : page * size ≡ k * size + size = ap (λ p. p * size) whole ∙ omega arith in
      let fits : k * size ≤ length items = full_before size k (length items) pos (omega arith) in
      let count : length (paged s items) ≡ min (page * size - k * size) (length items - k * size) =
        length-take (page * size - k * size) (drop (k * size) items)
        ∙ ap (min (page * size - k * size)) (length-drop (k * size) items) in
      (omega arith, omega arith)

  rows_of-AllAre :
      (get_row_id : T → ℕ → String) (columns : List (DataColumn T)) (rows : List T) (s : TableState)
      (chosen : List String) (b : Bool)
      → ((id : String) → has id (page_ids get_row_id s rows) ≡ true → has id chosen ≡ b)
      → AllAre b (rows_of get_row_id true columns (record s { selected = chosen }) rows)
  unfolding rows_of page_ids safe_page paged
  rows_of-AllAre get_row_id columns rows s chosen b h =
      let after : TableState = record s { selected = chosen } in
      rows_from-AllAre get_row_id (visible_columns columns after) after b
        ((safe_page s rows - 1) * s.page_size) (paged s rows) h

  toggle_all_only :
      (get_row_id : T → ℕ → String) (rows : List T) (s : TableState)
      → toggle_all get_row_id rows s
        ≡ record s { selected = (toggle_all get_row_id rows s).selected }
  unfolding toggle_all
  toggle_all_only get_row_id rows s = elim (Bool-cases (all_selected get_row_id s rows)) [
    | inl on ↦ rw on refl
    | inr off ↦ rw off refl
  ]

  -- A click on the box of the header, in a table whose rows can be selected and whose ids do not depend
  -- on where a row stands. Then every box that the page draws is the opposite of what the box of the
  -- header was, and the parent is told of exactly the rows that are selected then: those of the page
  -- as they were turned, and of the others those that were selected before.
  pub selected_rows-toggle_all :
      (id_of : T → String) (columns : List (DataColumn T)) (rows items : List T) (s : TableState)
      → let get_row_id = by_row id_of in
        let after = toggle_all get_row_id rows s in
        AllAre (not (all_selected get_row_id s rows)) (rows_of get_row_id true columns after rows)
        × (selected_rows get_row_id items after
            ≡ filter
                (λ row.
                  if has (id_of row) (page_ids get_row_id s rows)
                  then not (all_selected get_row_id s rows)
                  else has (id_of row) s.selected)
                items)
  unfolding rows_of selected_rows
  selected_rows-toggle_all id_of columns rows items s =
      let get_row_id = by_row id_of in
      let after = toggle_all get_row_id rows s in
      (
        subst
            (λ (a : TableState).
              AllAre (not (all_selected get_row_id s rows))
                (rows_of get_row_id true columns a rows))
            (sym (toggle_all_only get_row_id rows s))
            (rows_of-AllAre get_row_id columns rows s after.selected
              (not (all_selected get_row_id s rows))
              (λ id here. has-toggle_all get_row_id rows id s ∙ rw here refl)),
        selected_from-by_row id_of 0 items after
            ∙ filter_same _ _ (λ row. has-toggle_all get_row_id rows (id_of row) s) items,
      )
