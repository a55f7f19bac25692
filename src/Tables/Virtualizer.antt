-- ===== src/Tables/Virtualizer.antt =====
-- frontend/src/hooks/useVirtualizer.ts: the rows of a long list that are drawn, from the position of
-- the scroll bar. Positions are whole pixels.
use cloudscale_commerce.Prelude.{
  ℕ, zero, suc, ◌+◌, ◌-◌, ◌*◌, ◌/◌, ◌≤◌, ◌<◌, min, ◌≡◌, refl, ap, ◌∙◌, some, List, [], ◌∷◌, length,
  get_elem?, All, arith,
}
use native.Mathlib.Nat.{le-div_iff_mul-le, div-lt_iff_lt-mul, mul-le-mul_right}

pub record VirtualItem : Type 0 where
  pub index : ℕ
  pub offset_top : ℕ
  pub height : ℕ

pub record Viewport : Type 0 where
  pub scroll_top : ℕ
  pub container_height : ℕ
  pub item_count : ℕ
  pub item_height : ℕ
  pub overscan : ℕ

-- `Math.max(0, Math.floor(scrollTop / itemHeight) - overscan)`: subtraction here stops at 0.
pub start_index : Viewport → ℕ
start_index v = v.scroll_top / v.item_height - v.overscan

-- One more than `endIndex`, which is -1 for an empty list.
pub past_end : Viewport → ℕ
past_end v = min v.item_count ((v.scroll_top + v.container_height) / v.item_height + v.overscan + 1)

pub item_at : Viewport → ℕ → VirtualItem
item_at v i = record { index = i; offset_top = i * v.item_height; height = v.item_height }

-- The loop, for the next `n` values of `i`.
items_from : Viewport → (i n : ℕ) → List VirtualItem
items_from v i zero = []
items_from v i (suc n) = item_at v i ∷ items_from v (suc i) n

pub virtual_items : Viewport → List VirtualItem
unfolding items_from start_index past_end
virtual_items v = items_from v (start_index v) (past_end v - start_index v)

pub total_height : Viewport → ℕ
total_height v = v.item_count * v.item_height

get_elem?-items_from :
    (v : Viewport) (i n k : ℕ) → k < n → get_elem? (items_from v i n) k ≡ some (item_at v (i + k))
unfolding items_from
get_elem?-items_from v i zero k h = absurd (omega (arith, h))
get_elem?-items_from v i (suc n) zero h = ap (λ j. some (item_at v j)) (omega arith)
get_elem?-items_from v i (suc n) (suc k) h =
    get_elem?-items_from v (suc i) n k (omega arith) ∙ ap (λ j. some (item_at v j)) (omega arith)

length-items_from : (v : Viewport) (i n : ℕ) → length (items_from v i n) ≡ n
unfolding items_from
length-items_from v i zero = refl
length-items_from v i (suc n) = omega (arith, length-items_from v (suc i) n)

-- A row that lies in the viewport, in part at least, has its index between the bounds.
visible_in_bounds :
    (v : Viewport) (i : ℕ)
    → 0 < v.item_height
    → i < v.item_count
    → i * v.item_height < v.scroll_top + v.container_height
    → v.scroll_top < (i + 1) * v.item_height
    → (start_index v ≤ i) × (i < past_end v)
unfolding start_index past_end
visible_in_bounds v i pos few above below =
    let first = (div-lt_iff_lt-mul pos).1 below in
    let last : i ≤ (v.scroll_top + v.container_height) / v.item_height =
      (le-div_iff_mul-le pos).1 (omega arith) in
    (omega arith, omega arith)

-- The positions and the heights are whole pixels, and a row has a height. Every row that lies in the
-- viewport, in part at least, is drawn, with its own index, below the rows before it in the whole
-- list, and as high as every row.
pub virtual_items_cover :
    (v : Viewport) (i : ℕ)
    → 0 < v.item_height
    → i < v.item_count
    → i * v.item_height < v.scroll_top + v.container_height
    → v.scroll_top < (i + 1) * v.item_height
    → get_elem? (virtual_items v) (i - start_index v)
      ≡ some (record { index = i; offset_top = i * v.item_height; height = v.item_height })
unfolding virtual_items item_at
virtual_items_cover v i pos few above below =
    let (from, until) = visible_in_bounds v i pos few above below in
    get_elem?-items_from v (start_index v) (past_end v - start_index v) (i - start_index v)
      (omega arith)
    ∙ ap (λ j. some (item_at v j)) (omega arith)

-- A row that is drawn lies in the list, whatever its length.
abbrev pub IsInside : Viewport → VirtualItem → Type 0
IsInside v item = (item.index < v.item_count) × (item.offset_top + item.height ≤ total_height v)

items_from-IsInside :
    (v : Viewport) (i n : ℕ) → n ≤ v.item_count - i → All (IsInside v) (items_from v i n)
unfolding items_from item_at total_height
items_from-IsInside v i zero h = tt
items_from-IsInside v i (suc n) h =
    ((omega arith, omega (arith, row)), items_from-IsInside v (suc i) n (omega arith))
  where
    row : (i + 1) * v.item_height ≤ v.item_count * v.item_height
    row = mul-le-mul_right v.item_height (omega arith)

quotient_sum-le : (x y h : ℕ) → 0 < h → (x + y) / h ≤ x / h + y / h + 1
quotient_sum-le x y h pos =
    let below : (x + y) / h < x / h + y / h + 2 = (div-lt_iff_lt-mul pos).1 (
      omega (
        arith,
        (div-lt_iff_lt-mul {k = h} {x = x} {y = x / h + 1} pos).0 (omega arith),
        (div-lt_iff_lt-mul {k = h} {x = y} {y = y / h + 1} pos).0 (omega arith),
      )) in
    omega (arith, below)

-- However long the list is, no more rows are drawn than fit into the viewport, the overscan on both
-- sides and two more; and each of them lies in the list.
pub virtual_items_bounds :
    (v : Viewport)
    → 0 < v.item_height
    → (length (virtual_items v) ≤ v.container_height / v.item_height + 2 * v.overscan + 2)
      × All (IsInside v) (virtual_items v)
unfolding virtual_items start_index past_end
virtual_items_bounds v pos = (
  omega (
    arith,
    length-items_from v (start_index v) (past_end v - start_index v),
    quotient_sum-le v.scroll_top v.container_height v.item_height pos,
  ),
  items_from-IsInside v (start_index v) (past_end v - start_index v) (omega arith),
)
