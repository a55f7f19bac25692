-- ===== src/Tables/VirtualTable.antt =====
-- frontend/src/components/data/VirtualDataTable.tsx: the rows that a long table shows, before the
-- virtualizer draws some of them. `V` is the values that columns sort by, texts and numbers.
use cloudscale_commerce.Prelude.{
  Bool, true, false, if◌then◌else◌, Option, none, some, List, [], map, filter, find, any, String,
  str_eq,
}
use cloudscale_commerce.Sort.{Sign, negate, sort}
use cloudscale_commerce.Text.{Text, text_eq, includes}
use cloudscale_commerce.Tables.DataTable.{SortDir}

pub record VirtualColumn (T V : Type 0) : Type 0 where
  pub id : String
  pub header : String
  pub sort_accessor : Option (T → V)
  pub searchable : Option Bool

pub record TableState : Type 0 where
  pub search : Text
  pub sort_col : Option String
  pub sort_dir : Option SortDir

pub initial : TableState
initial = record { search = []; sort_col = none; sort_dir = none }

-- A click on the column that sorts, by the direction it has.
next : Option SortDir → TableState → TableState
next (some SortDir.asc) s = record s { sort_dir = some SortDir.desc }
next (some SortDir.desc) s = record s { sort_col = none; sort_dir = none }
next none s = s

sorts_by : String → Option String → Bool
sorts_by col_id none = false
sorts_by col_id (some col) = str_eq col col_id

pub toggle_sort : String → TableState → TableState
unfolding next sorts_by
toggle_sort col_id s =
    if sorts_by col_id s.sort_col
    then next s.sort_dir s
    else record s { sort_col = some col_id; sort_dir = some SortDir.asc }

module _ {T V : Type 0} where
  -- `c.searchable !== false`
  is_searchable : VirtualColumn T V → Bool
  is_searchable c = elim c.searchable [ none ↦ true | some b ↦ b ]

  searchable_ids : List (VirtualColumn T V) → List String
  unfolding is_searchable
  searchable_ids columns = map (λ c. c.id) (filter is_searchable columns)

  -- `to_lower` is `toLowerCase`, `text` is `String(val || "")`, `empty` the value `""`, and `compare`
  -- the order of two values by `<` and `>`.
  module _ (to_lower : Text → Text) (text : V → Text) (empty : V) (compare : V → V → Sign)
      (columns : List (VirtualColumn T V)) where
    matches : Text → T → String → Bool
    matches q row id = elim (find (λ c. str_eq c.id id) columns) [
      | none ↦ false
      | some col ↦
          includes
            (to_lower (elim col.sort_accessor [ none ↦ [] | some accessor ↦ text (accessor row) ]))
            q
    ]

    value : T → VirtualColumn T V → V
    value row col = elim col.sort_accessor [ none ↦ empty | some accessor ↦ accessor row ]

    pub filtered : TableState → List T → List T
    unfolding searchable_ids matches
    filtered s rows =
        if text_eq s.search []
        then rows
        else filter (λ row. any (matches (to_lower s.search) row) (searchable_ids columns)) rows

    comparison : SortDir → VirtualColumn T V → T → T → Sign
    unfolding value
    comparison SortDir.asc col a b = compare (value a col) (value b col)
    comparison SortDir.desc col a b = negate (compare (value a col) (value b col))

    sorted_by : Option (VirtualColumn T V) → SortDir → List T → List T
    unfolding comparison
    sorted_by none dir rows = rows
    sorted_by (some col) dir rows = sort (comparison dir col) rows

    sorted_as : Option String → Option SortDir → List T → List T
    unfolding sorted_by
    sorted_as (some sort_col) (some dir) rows =
        if str_eq sort_col ""
        then rows
        else sorted_by (find (λ c. str_eq c.id sort_col) columns) dir rows
    sorted_as _ _ rows = rows

    pub sorted : TableState → List T → List T
    unfolding filtered sorted_as
    sorted s rows = sorted_as s.sort_col s.sort_dir (filtered s rows)
