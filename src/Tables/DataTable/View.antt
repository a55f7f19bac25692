-- ===== src/Tables/DataTable/View.antt =====
-- frontend/src/components/data/DataTable.tsx: what the table draws, and what it is opened with. A cell
-- is drawn as its text.
use cloudscale_commerce.Prelude.{
  ℕ, ◌+◌, ◌-◌, ◌*◌, min, ltb, ◌==◌, Bool, true, false, not, if◌then◌else◌, Option, none, some, List,
  [], ◌∷◌, map, filter, length, String,
}
use cloudscale_commerce.Text.{Text, text_eq}
use cloudscale_commerce.Sort.{Sign}
use cloudscale_commerce.Tables.DataTable.{
  DataColumn, SortDir, TableState, has, is_sorting, total_pages, safe_page, paged, all_selected,
  sorted,
}

-- The properties of the table that decide what is drawn; `hidden` is the ids of the columns that are
-- hidden at first, `bulk_actions` the labels of the actions, where there are any.
pub record TableProps : Type 0 where
  pub loading : Bool
  pub default_page_size : ℕ
  pub hidden : List String
  pub selectable : Bool
  pub bulk_actions : Option (List String)

pub open_table : TableProps → TableState
open_table p = record {
  search = [];
  sort_col = none;
  sort_dir = none;
  page = 1;
  page_size = p.default_page_size;
  selected = [];
  hidden_cols = p.hidden;
}

pub data Arrow : Type 0 where
  up down both : Arrow

pub record HeadCell : Type 0 where
  pub id : String
  pub header : Text
  pub arrow : Arrow

-- `checked` is the box of the row, where the rows can be selected.
pub record RowView : Type 0 where
  pub row_id : String
  pub is_selected : Bool
  pub checked : Option Bool
  pub cells : List Text

pub data Body : Type 0 where
  empty_state : (col_span : ℕ) (is_search : Bool) → Body
  rows : List RowView → Body

pub record Footer : Type 0 where
  pub from : ℕ
  pub until : ℕ
  pub total : ℕ
  pub safe_page : ℕ
  pub total_pages : ℕ
  pub previous_disabled : Bool
  pub next_disabled : Bool

pub record Drawn : Type 0 where
  pub menu : List (String × Text × Bool)
  pub bulk : Option (ℕ × List String)
  pub all_box : Option Bool
  pub heads : List HeadCell
  pub body : Body
  pub footer : Footer

pub data View : Type 0 where
  skeleton : View
  table : Drawn → View

unfoldable pub box : (selectable : Bool) → Bool → Option Bool
box selectable checked = if selectable then some checked else none

bulk_bar : Option (List String) → (selected_count : ℕ) → Option (ℕ × List String)
bulk_bar none selected_count = none
bulk_bar (some actions) selected_count =
    if ltb 0 selected_count then some (selected_count, actions) else none

is_asc : Option SortDir → Bool
is_asc (some SortDir.asc) = true
is_asc _ = false

arrow_of : String → TableState → Arrow
unfolding is_asc
arrow_of col_id s =
    if is_sorting col_id s.sort_col then (if is_asc s.sort_dir then up else down) else both

body_of : (columns : ℕ) → TableState → List RowView → Body
body_of columns s [] = empty_state columns (not (text_eq s.search []))
body_of columns s (row ∷ drawn) = rows (row ∷ drawn)

module _ {T : Type 0} where
  pub visible_columns : List (DataColumn T) → TableState → List (DataColumn T)
  visible_columns columns s = filter (λ c. not (has c.id s.hidden_cols)) columns

  unfoldable pub row_of :
      (selectable : Bool) → List (DataColumn T) → TableState → (row_id : String) → T → RowView
  unfolding box
  row_of selectable columns s row_id row =
      let is_selected = has row_id s.selected in
      record {
        row_id = row_id;
        is_selected = is_selected;
        checked = box selectable is_selected;
        cells = map (λ c. c.text row) columns;
      }

  -- The rows of the page, whose first one has the index `i` among the sorted rows.
  unfoldable pub rows_from :
      (get_row_id : T → ℕ → String) (selectable : Bool)
      → List (DataColumn T)
      → TableState
      → (i : ℕ) → List T
      → List RowView
  unfolding row_of
  rows_from get_row_id selectable columns s i [] = []
  rows_from get_row_id selectable columns s i (row ∷ items) =
      row_of selectable columns s (get_row_id row i) row
      ∷ rows_from get_row_id selectable columns s (i + 1) items

  unfoldable pub rows_of :
      (get_row_id : T → ℕ → String) (selectable : Bool)
      → List (DataColumn T)
      → TableState
      → List T
      → List RowView
  unfolding rows_from visible_columns
  rows_of get_row_id selectable columns s items =
      rows_from get_row_id selectable (visible_columns columns s) s
        ((safe_page s items - 1) * s.page_size) (paged s items)

  unfoldable pub footer_of : TableState → List T → Footer
  footer_of s items =
      let page = safe_page s items in
      let pages = total_pages s.page_size items in
      record {
        from = (page - 1) * s.page_size + 1;
        until = min (page * s.page_size) (length items);
        total = length items;
        safe_page = page;
        total_pages = pages;
        previous_disabled = page == 1;
        next_disabled = page == pages;
      }

  module _ (to_lower : Text → Text) (compare : Text → Text → Sign) (columns : List (DataColumn T))
      (get_row_id : T → ℕ → String) where
    drawn : TableProps → TableState → (sorted : List T) → Drawn
    unfolding bulk_bar box arrow_of visible_columns rows_of body_of footer_of
    drawn p s items =
        let shown = visible_columns columns s in
        let width = length shown + (if p.selectable then 1 else 0) in
        record {
          menu = map (λ c. (c.id, c.header, not (has c.id s.hidden_cols))) columns;
          bulk = bulk_bar p.bulk_actions (length s.selected);
          all_box = box p.selectable (all_selected get_row_id s items);
          heads = map (λ c. record { id = c.id; header = c.header; arrow = arrow_of c.id s }) shown;
          body = body_of width s (rows_of get_row_id p.selectable columns s items);
          footer = footer_of s items;
        }

    pub render : TableProps → TableState → List T → View
    unfolding drawn
    render p s items =
        if p.loading then skeleton else table (drawn p s (sorted to_lower compare columns s items))
