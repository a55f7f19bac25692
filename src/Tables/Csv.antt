-- ===== src/Tables/Csv.antt =====
-- frontend/src/components/data/DataTable.tsx: the file that the export button writes. 34 is the code
-- of the quotation mark, 44 of the comma and 10 of the line feed.
pub mod Reads
use cloudscale_commerce.Prelude.{
  ℕ, Bool, not, if◌then◌else◌, List, [], ◌∷◌, ◌++◌, map, filter, ◌==◌,
}
use cloudscale_commerce.Text.{Text}
use cloudscale_commerce.Tables.DataTable.{DataColumn, TableState, has}

-- `replace(/"/g, '""')`
escaped : Text → Text
escaped [] = []
escaped (c ∷ t) = let rest = escaped t in if c == 34 then 34 ∷ 34 ∷ rest else c ∷ rest

cell : Text → Text
unfolding escaped
cell t = 34 ∷ (escaped t ++ 34 ∷ [])

join : (separator : ℕ) → List Text → Text
join separator [] = []
join separator (t ∷ []) = t
join separator (t ∷ u ∷ rest) = t ++ separator ∷ join separator (u ∷ rest)

pub row_text : List Text → Text
unfolding cell join
row_text cells = join 44 (map cell cells)

module _ {T : Type 0} where
  visible_columns : List (DataColumn T) → TableState → List (DataColumn T)
  visible_columns columns s = filter (λ c. not (has c.id s.hidden_cols)) columns

  -- The text of the file; `sorted` is the rows that the table shows.
  pub export_csv : List (DataColumn T) → (sorted : List T) → TableState → Text
  unfolding row_text visible_columns
  export_csv columns sorted s =
      let shown = visible_columns columns s in
      join 44 (map (λ c. c.header) shown)
      ++ 10 ∷ join 10 (map (λ row. row_text (map (λ c. c.text row) shown)) sorted)
