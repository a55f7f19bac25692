-- ===== src/Tables/Csv/Reads.antt =====
-- A reader of comma-separated values, as RFC 4180 describes them, gets back what the export wrote.
use cloudscale_commerce.Prelude.{
  ℕ, zero, suc, if◌then◌else◌, Option, none, some, ◌>>=◌, List, [], ◌∷◌, ◌==◌,
}
use cloudscale_commerce.Text.{Text}

-- A cell after its opening mark, and what is left behind the closing one: two marks are a mark.
pub read_cell : Text → Text × Text
read_cell [] = ([], [])
read_cell (c ∷ []) = if c == 34 then ([], []) else (c ∷ [], [])
read_cell (c ∷ d ∷ t) =
    let one = read_cell (d ∷ t) in
    let two = read_cell t in
    if c == 34 then (if d == 34 then (34 ∷ two.0, two.1) else ([], d ∷ t)) else (c ∷ one.0, one.1)

-- The rest of a text that begins with the character.
unfoldable pub after_char : ℕ → Text → Option Text
after_char wanted [] = none
after_char wanted (c ∷ t) = if c == wanted then some t else none

unfoldable pub with_cell : Text → Option (List Text × Text) → Option (List Text × Text)
with_cell t none = none
with_cell t (some (cells, more)) = some (t ∷ cells, more)

-- One more cell than `columns`: each between quotation marks, a comma (44) after each but the last, and
-- a line feed (10) after that one. Any other text is no line of the file.
pub read_row : (columns : ℕ) → Text → Option (List Text × Text)
unfolding read_cell
read_row zero t = after_char 34 t >>= λ inside.
    let here = read_cell inside in after_char 10 (here.1) >>= λ more. some (here.0 ∷ [], more)
read_row (suc columns) t = after_char 34 t >>= λ inside.
    let here = read_cell inside in
    after_char 44 (here.1) >>= λ later. with_cell (here.0) (read_row columns later)
