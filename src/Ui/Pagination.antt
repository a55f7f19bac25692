-- ===== src/Ui/Pagination.antt =====
-- frontend/src/components/ui/Pagination.tsx: the entries of the bar, and what its buttons ask for. On ℕ
-- a difference below nought is nought, which the maximum with two hides.
pub mod Laws
use cloudscale_commerce.Prelude.{
  ℕ, zero, suc, ◌+◌, ◌-◌, ltb, Bool, true, false, not, if◌then◌else◌, List, [], ◌∷◌, ◌++◌, ◌==◌,
  map, Option, none, some,
}

pub data Entry : Type 0 where
  page : ℕ → Entry
  dots : Entry

-- The loop: `count` pages from `left`.
unfoldable pub range : (left count : ℕ) → List Entry
range left zero = []
range left (suc count) = page left ∷ range (left + 1) count

unfoldable pub larger : ℕ → ℕ → ℕ
larger a b = if ltb a b then b else a

unfoldable pub smaller : ℕ → ℕ → ℕ
smaller a b = if ltb b a then b else a

unfoldable pub get_pages : (current total siblings : ℕ) → List Entry
unfolding range larger smaller
get_pages current total siblings =
    let left = larger 2 (current - siblings) in
    let right = smaller (total - 1) (current + siblings) in
    page 1
    ∷ ((if ltb 2 left then dots ∷ [] else [])
        ++ (range left (right + 1 - left)
            ++ ((if ltb right (total - 1) then dots ∷ [] else [])
                ++ (if ltb 1 total then page total ∷ [] else []))))

pub record Button : Type 0 where
  pub goes_to : ℕ
  pub disabled : Bool

pub data Item : Type 0 where
  gap : Item
  number : (goes_to : ℕ) (is_current : Bool) → Item

pub record Bar : Type 0 where
  pub first : Option Button
  pub previous : Button
  pub items : List Item
  pub next : Button
  pub last : Option Button

item : (current : ℕ) → Entry → Item
item current (page p) = number p (p == current)
item current dots = gap

-- Nothing is shown where there is no more than one page.
pub render : (current total siblings : ℕ) (show_edges : Bool) → Option Bar
unfolding get_pages item
render current total siblings show_edges =
    if not (ltb 1 total)
    then none
    else (let edge = λ (b : Button). if show_edges then some b else none in
        some (record {
          first = edge (record { goes_to = 1; disabled = current == 1 });
          previous = record { goes_to = current - 1; disabled = current == 1 };
          items = map (item current) (get_pages current total siblings);
          next = record { goes_to = current + 1; disabled = current == total };
          last = edge (record { goes_to = total; disabled = current == total });
        }))
