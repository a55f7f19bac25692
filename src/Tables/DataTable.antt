-- ===== src/Tables/DataTable.antt =====
-- frontend/src/components/data/DataTable.tsx: the state of a table and the handlers of its controls.
pub mod Pages
pub mod Clicks
pub mod View
pub mod Boxes
pub mod Opaque
use cloudscale_commerce.Prelude.{
  ℕ, zero, suc, ◌+◌, ◌-◌, ◌*◌, ◌/◌, min, max, Bool, true, false, not, ◌&&◌, if◌then◌else◌, Option,
  none, some, List, [], ◌∷◌, ◌++◌, map, take, drop, filter, find, any, all, foldl, length, String,
  str_eq, ltb,
}
use cloudscale_commerce.Sort.{Sign, negate, sort}
use cloudscale_commerce.Text.{Text, text_eq, includes}

-- `text` is `String(col.accessor(row))`, and `sort_text` the same of `col.sortAccessor`.
pub record DataColumn (T : Type 0) : Type 0 where
  pub id : String
  pub header : Text
  pub text : T → Text
  pub sort_text : Option (T → Text)
  pub searchable : Bool

pub data SortDir : Type 0 where
  asc desc : SortDir

pub record TableState : Type 0 where
  pub search : Text
  pub sort_col : Option String
  pub sort_dir : Option SortDir
  pub page : ℕ
  pub page_size : ℕ
  pub selected : List String
  pub hidden_cols : List String

-- The methods of a set of ids, kept in the order of insertion.
pub has : String → List String → Bool
has id ids = any (λ x. str_eq x id) ids

delete : String → List String → List String
delete id ids = filter (λ x. not (str_eq x id)) ids

insert_id : String → List String → List String
unfolding has
insert_id id ids = if has id ids then ids else ids ++ id ∷ []

toggle : String → List String → List String
unfolding has delete insert_id
toggle id ids = if has id ids then delete id ids else insert_id id ids

pub toggle_row : String → TableState → TableState
unfolding toggle
toggle_row id s = record s { selected = toggle id s.selected }

pub toggle_column : String → TableState → TableState
unfolding toggle
toggle_column col_id s = record s { hidden_cols = toggle col_id s.hidden_cols }

-- The direction that a click on the column that sorts moves to.
next_dir : Option SortDir → Option SortDir
next_dir none = some SortDir.asc
next_dir (some SortDir.asc) = some SortDir.desc
next_dir (some SortDir.desc) = none

is_desc : Option SortDir → Bool
is_desc (some SortDir.desc) = true
is_desc _ = false

unfoldable pub is_sorting : String → Option String → Bool
is_sorting col_id none = false
is_sorting col_id (some col) = str_eq col col_id

pub handle_sort : String → TableState → TableState
unfolding next_dir is_desc is_sorting
handle_sort col_id s =
    if is_sorting col_id s.sort_col
    then record s {
      sort_dir = next_dir s.sort_dir;
      sort_col = if is_desc s.sort_dir then none else s.sort_col;
    }
    else record s { sort_col = some col_id; sort_dir = some SortDir.asc }

-- `onChange` of the search box.
pub set_search : Text → TableState → TableState
set_search search s = record s { search = search }

-- The options of the page size, and the first of the two arrows.
pub set_page_size : ℕ → TableState → TableState
set_page_size n s = record s { page_size = n; page = 1 }

pub previous_page : TableState → TableState
previous_page s = record s { page = max 1 (s.page - 1) }

module _ {T : Type 0} where
  pub slice : (from until : ℕ) → List T → List T
  slice from until rows = take (until - from) (drop from rows)

  -- `Math.max(1, Math.ceil(sorted.length / pageSize))`, for a page size that is not 0.
  pub total_pages : (page_size : ℕ) → List T → ℕ
  total_pages page_size rows = max 1 ((length rows + (page_size - 1)) / page_size)

  pub safe_page : TableState → List T → ℕ
  unfolding total_pages
  safe_page s rows = min s.page (total_pages s.page_size rows)

  pub paged : TableState → List T → List T
  unfolding slice safe_page
  paged s rows =
      let page = safe_page s rows in slice ((page - 1) * s.page_size) (page * s.page_size) rows

  -- The other arrow.
  pub next_page : List T → TableState → TableState
  unfolding total_pages
  next_page rows s = record s { page = min (total_pages s.page_size rows) (s.page + 1) }

  -- The ids of the rows of a page, whose first row has the index `i` among the sorted rows.
  ids_from : (get_row_id : T → ℕ → String) → ℕ → List T → List String
  ids_from get_row_id i [] = []
  ids_from get_row_id i (row ∷ rows) = get_row_id row i ∷ ids_from get_row_id (i + 1) rows

  pub page_ids : (get_row_id : T → ℕ → String) → TableState → List T → List String
  unfolding ids_from safe_page paged
  page_ids get_row_id s rows =
      ids_from get_row_id ((safe_page s rows - 1) * s.page_size) (paged s rows)

  pub all_selected : (get_row_id : T → ℕ → String) → TableState → List T → Bool
  unfolding page_ids has paged
  all_selected get_row_id s rows =
      ltb 0 (length (paged s rows)) && all (λ id. has id s.selected) (page_ids get_row_id s rows)

  pub toggle_all : (get_row_id : T → ℕ → String) → List T → TableState → TableState
  unfolding all_selected page_ids delete insert_id
  toggle_all get_row_id rows s =
      let ids = page_ids get_row_id s rows in
      if all_selected get_row_id s rows
      then record s { selected = foldl (λ next id. delete id next) s.selected ids }
      else record s { selected = foldl (λ next id. insert_id id next) s.selected ids }

  -- The rows that the parent is told of, each under its index among all of the data.
  selected_from : (get_row_id : T → ℕ → String) → (idx : ℕ) → List T → TableState → List T
  unfolding has
  selected_from get_row_id idx [] s = []
  selected_from get_row_id idx (row ∷ items) s =
      let rest = selected_from get_row_id (suc idx) items s in
      if has (get_row_id row idx) s.selected then row ∷ rest else rest

  pub selected_rows : (get_row_id : T → ℕ → String) → List T → TableState → List T
  unfolding selected_from
  selected_rows get_row_id items s = selected_from get_row_id 0 items s

  -- `to_lower` and `compare` are `toLowerCase` and `localeCompare` of the runtime.
  module _ (to_lower : Text → Text) (compare : Text → Text → Sign)
      (columns : List (DataColumn T)) where
    matches : Text → T → DataColumn T → Bool
    matches q row col = includes (to_lower (col.text row)) q

    searched : Text → T → String → Bool
    unfolding matches
    searched q row id = elim (find (λ col. str_eq col.id id) columns) [
      | none ↦ false
      | some col ↦ matches q row col
    ]

    pub filtered : TableState → List T → List T
    unfolding searched
    filtered s rows =
        let ids = map (λ col. col.id) (filter (λ col. col.searchable) columns) in
        if text_eq s.search []
        then rows
        else filter (λ row. any (searched (to_lower s.search) row) ids) rows

    -- `col.sortAccessor || col.accessor`
    accessor : DataColumn T → T → Text
    accessor col = elim col.sort_text [ none ↦ col.text | some text ↦ text ]

    comparison : SortDir → DataColumn T → T → T → Sign
    unfolding accessor negate
    comparison SortDir.asc col a b = compare (accessor col a) (accessor col b)
    comparison SortDir.desc col a b = negate (compare (accessor col a) (accessor col b))

    sort_by : Option SortDir → Option (DataColumn T) → List T → List T
    unfolding comparison
    sort_by none col rows = rows
    sort_by (some dir) none rows = rows
    sort_by (some dir) (some col) rows = sort (comparison dir col) rows

    column : Option String → Option (DataColumn T)
    column none = none
    column (some id) = if str_eq id "" then none else find (λ col. str_eq col.id id) columns

    pub sorted : TableState → List T → List T
    unfolding sort_by column filtered
    sorted s rows = sort_by s.sort_dir (column s.sort_col) (filtered s rows)
