-- ===== src/Tables/Tests.antt =====
-- The theorems about the tables at concrete inputs.
use cloudscale_commerce.Prelude.{
  ◌≡◌, true, not, if◌then◌else◌, ltb, filter, none, some, List, [], ◌∷◌, String, ◌-◌, length,
  get_elem?, arith,
}
use mathlib.Core.List.{Perm}
use cloudscale_commerce.Sort.{Sign}
use cloudscale_commerce.Text.{Text, literal}
use cloudscale_commerce.Tables.DataTable.{
  DataColumn, SortDir, TableState, has, page_ids, all_selected, toggle_all, total_pages,
  selected_rows, sorted, filtered,
}
use cloudscale_commerce.Tables.DataTable.Pages.{pages_from, pages_from-sorted}
use cloudscale_commerce.Tables.DataTable.Boxes.{by_row, AllAre, selected_rows-toggle_all}
use cloudscale_commerce.Tables.DataTable.View.{rows_of}
use cloudscale_commerce.Tables.Virtualizer.{
  Viewport, virtual_items, start_index, virtual_items_cover,
}

abbrev viewport : Viewport
viewport = record {
  scroll_top = 1_000;
  container_height = 300;
  item_count = 500;
  item_height = 40;
  overscan = 5;
}

virtual_items_cover_example :
    get_elem? (virtual_items viewport) (27 - start_index viewport)
    ≡ some (record { index = 27; offset_top = 1_080; height = 40 })
virtual_items_cover_example =
    virtual_items_cover viewport 27 (omega arith) (omega arith) (omega arith) (omega arith)

abbrev as_is : Text → Text
as_is t = t

abbrev by_length : Text → Text → Sign
by_length a b =
    if ltb (length a) (length b)
    then Sign.minus
    else if ltb (length b) (length a)
    then Sign.plus
    else Sign.equal

abbrev name_column : DataColumn Text
name_column = record {
  id = "name";
  header = literal "Name";
  text = as_is;
  sort_text = none;
  searchable = true;
}

-- A table of two rows a page, sorted by the name from the longest down, and searched for an `a`.
abbrev table : TableState
table = record {
  search = literal "a";
  sort_col = some "name";
  sort_dir = some SortDir.desc;
  page = 1;
  page_size = 2;
  selected = "1" ∷ "7" ∷ [];
  hidden_cols = [];
}

abbrev names : List Text
names = literal "ab" ∷ literal "b" ∷ literal "a" ∷ literal "abc" ∷ []

abbrev sorted_names : List Text
sorted_names = sorted as_is by_length (name_column ∷ []) table names

pages_from-sorted_example :
    (pages_from table sorted_names 1 (total_pages 2 sorted_names) ≡ sorted_names)
    × Perm sorted_names (filtered as_is by_length (name_column ∷ []) table names)
pages_from-sorted_example =
    pages_from-sorted as_is by_length (name_column ∷ []) table names (omega arith)

abbrev id_of : Text → String
id_of t = if ltb (length t) 2 then "1" else "2"

selected_rows-toggle_all_example :
    let get_row_id = by_row id_of in
    let after = toggle_all get_row_id sorted_names table in
    AllAre
      (not (all_selected get_row_id table sorted_names))
      (rows_of get_row_id true (name_column ∷ []) after sorted_names)
    × (selected_rows get_row_id names after
        ≡ filter
            (λ row.
              if has (id_of row) (page_ids get_row_id table sorted_names)
              then not (all_selected get_row_id table sorted_names)
              else has (id_of row) table.selected)
            names)
selected_rows-toggle_all_example =
    selected_rows-toggle_all id_of (name_column ∷ []) sorted_names names table
