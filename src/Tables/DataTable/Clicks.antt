-- ===== src/Tables/DataTable/Clicks.antt =====
-- What clicks on the boxes and the headers of a table do.
use cloudscale_commerce.Prelude.{
  ℕ, ◌≡◌, refl, false, not, ◌&&◌, ◌||◌, if◌then◌else◌, none, some, List, [], ◌∷◌, ◌++◌, foldl,
  String, str_eq, eq_iff, eq_refl, arith,
}
use cloudscale_commerce.Tables.DataTable.{
  SortDir, TableState, has, delete, insert_id, toggle, toggle_row, next_dir, is_desc, is_sorting,
  handle_sort, page_ids, all_selected, toggle_all,
}

has-append :
    (q id : String) (ids : List String) → has q (ids ++ id ∷ []) ≡ (has q ids || str_eq id q)
unfolding has
has-append q id [] = ground arith
has-append q id (x ∷ ids) = ground (arith, has-append q id ids)

has-delete :
    (q id : String) (ids : List String) → has q (delete id ids) ≡ (not (str_eq id q) && has q ids)
unfolding has delete
has-delete q id [] = ground arith
has-delete q id (x ∷ ids) =
    ground (arith, has-delete q id ids, eq_iff x id, eq_iff x q, eq_iff id q)

has-insert_id :
    (q id : String) (ids : List String) → has q (insert_id id ids) ≡ (str_eq id q || has q ids)
unfolding insert_id
has-insert_id q id ids = ground (arith, has-append q id ids, eq_iff id q)

-- A click on the box of a row inverts whether the row is selected, and keeps every other row.
pub has-toggle_row :
    (q id : String) (s : TableState)
    → has q (toggle_row id s).selected
      ≡ (if str_eq id q then not (has q s.selected) else has q s.selected)
unfolding toggle_row toggle
has-toggle_row q id s =
    ground (arith, has-delete q id s.selected, has-insert_id q id s.selected, eq_iff id q)

has-delete_all :
    (q : String) (selected ids : List String)
    → has q (foldl (λ next id. delete id next) selected ids) ≡ (not (has q ids) && has q selected)
unfolding has
has-delete_all q selected [] = refl
has-delete_all q selected (id ∷ ids) =
    ground (arith, has-delete_all q (delete id selected) ids, has-delete q id selected)

has-insert_all :
    (q : String) (selected ids : List String)
    → has q (foldl (λ next id. insert_id id next) selected ids) ≡ (has q ids || has q selected)
unfolding has
has-insert_all q selected [] = refl
has-insert_all q selected (id ∷ ids) =
    ground (arith, has-insert_all q (insert_id id selected) ids, has-insert_id q id selected)

-- A click on the box of the header selects every row of the page, or none of them if all were
-- selected, and keeps the rows of the other pages.
pub has-toggle_all :
    {T : Type 0} (get_row_id : T → ℕ → String) (rows : List T) (q : String) (s : TableState)
    → has q (toggle_all get_row_id rows s).selected ≡ (
        if has q (page_ids get_row_id s rows)
        then not (all_selected get_row_id s rows)
        else has q s.selected)
unfolding toggle_all
has-toggle_all get_row_id rows q s = ground (
  arith,
  has-delete_all q s.selected (page_ids get_row_id s rows),
  has-insert_all q s.selected (page_ids get_row_id s rows),
)

-- Three clicks on a header by which the table is not sorted: ascending, descending, and unsorted.
pub handle_sort_cycle :
    (col_id : String) (s : TableState)
    → is_sorting col_id s.sort_col ≡ false
    → let first = handle_sort col_id s in
      let second = handle_sort col_id first in
      let third = handle_sort col_id second in
      ((first.sort_col ≡ some col_id) × (first.sort_dir ≡ some SortDir.asc))
      × ((second.sort_col ≡ some col_id) × (second.sort_dir ≡ some SortDir.desc))
      × ((third.sort_col ≡ none) × (third.sort_dir ≡ none))
unfolding handle_sort is_sorting next_dir is_desc
handle_sort_cycle col_id s other =
    rw other (rw (eq_refl col_id) (rw (eq_refl col_id) ((refl, refl), (refl, refl), (refl, refl))))
