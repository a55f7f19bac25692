-- ===== src/Tables/DataTable/Pages.antt =====
-- The pages of a table, one behind the other.
use mathlib.Core.List.{Perm}
use mathlib.Core.List.Perm
use native.Mathlib.Nat.{div-lt_iff_lt-mul, mul-le-mul_right}
use cloudscale_commerce.Prelude.{
  ℕ, zero, suc, ◌+◌, ◌-◌, ◌*◌, ◌/◌, ◌≤◌, ◌<◌, ◌≡◌, refl, ap, sym, ◌∙◌, max, List, [], ◌∷◌, ◌++◌,
  take, drop, length, Option, none, some, arith,
}
use cloudscale_commerce.Text.{Text}
use cloudscale_commerce.Sort.{Sign, sort-Perm}
use cloudscale_commerce.Tables.DataTable.{
  DataColumn, SortDir, TableState, slice, total_pages, safe_page, paged, sort_by, filtered, sorted,
  comparison,
}

module _ {T : Type 0} where
  take-append-drop : (n : ℕ) (xs : List T) → take n xs ++ drop n xs ≡ xs
  take-append-drop zero xs = refl
  take-append-drop (suc n) [] = refl
  take-append-drop (suc n) (x ∷ xs) = ap (λ r. x ∷ r) (take-append-drop n xs)

  drop_whole : (n : ℕ) (xs : List T) → length xs ≤ n → drop n xs ≡ []
  drop_whole zero [] h = refl
  drop_whole zero (x ∷ xs) h = absurd (omega (arith, h))
  drop_whole (suc n) [] h = refl
  drop_whole (suc n) (x ∷ xs) h = drop_whole n xs (omega arith)

  abbrev xs_none : List T
  xs_none = []

  drop_nil : (n : ℕ) → drop n xs_none ≡ xs_none
  drop_nil n = drop_whole n [] (omega arith)

  drop-drop : (m n : ℕ) (xs : List T) → drop m (drop n xs) ≡ drop (n + m) xs
  drop-drop m zero xs = ap (λ k. drop k xs) (omega arith)
  drop-drop m (suc n) [] = drop_nil m ∙ sym (drop_nil (suc n + m))
  drop-drop m (suc n) (x ∷ xs) =
      let shift : suc (n + m) ≡ suc n + m = omega arith in
      drop-drop m n xs ∙ ap (λ k. drop k (x ∷ xs)) shift

  -- The pages hold all rows.
  length-le-total_pages :
      (size : ℕ) (rows : List T) → 0 < size → length rows ≤ total_pages size rows * size
  unfolding total_pages
  length-le-total_pages size rows pos =
      let quotient : ℕ = (length rows + (size - 1)) / size in
      let above : length rows + (size - 1) < (quotient + 1) * size =
        (div-lt_iff_lt-mul pos).0 (omega arith) in
      let more : quotient * size ≤ max 1 quotient * size = mul-le-mul_right size (omega arith) in
      omega arith

  slice_at :
      (rows : List T) (size page before k : ℕ)
      → page ≡ k + 1
      → before ≡ k
      → slice (before * size) (page * size) rows ≡ take size (drop (k * size) rows)
  unfolding slice
  slice_at rows size page before k e f =
      rw e (rw f (ap (λ n. take n (drop (k * size) rows)) (omega arith)))

  paged_within :
      (s : TableState) (rows : List T) (k : ℕ)
      → k < total_pages s.page_size rows
      → paged (record s { page = k + 1 }) rows ≡ take s.page_size (drop (k * s.page_size) rows)
  unfolding paged safe_page
  paged_within s rows k h = slice_at rows s.page_size _ _ k (omega arith) (omega arith)

  -- The `n` pages from the page `p` on, as the arrows show them.
  abbrev pub pages_from : TableState → List T → (p n : ℕ) → List T
  pages_from s rows p zero = []
  pages_from s rows p (suc n) = paged (record s { page = p }) rows ++ pages_from s rows (p + 1) n

  pages_from_rest :
      (s : TableState) (rows : List T) (k n : ℕ)
      → 0 < s.page_size
      → k + n ≡ total_pages s.page_size rows
      → pages_from s rows (k + 1) n ≡ drop (k * s.page_size) rows
  pages_from_rest s rows k zero pos e =
      let last : k ≡ total_pages s.page_size rows = omega (arith, e) in
      sym (drop_whole (k * s.page_size) rows (rw last (length-le-total_pages s.page_size rows pos)))
  pages_from_rest s rows k (suc n) pos e =
      ap (λ r. r ++ pages_from s rows (k + 1 + 1) n) (paged_within s rows k (omega (arith, e)))
      ∙ ap (λ r. take s.page_size (drop (k * s.page_size) rows) ++ r)
          (pages_from_rest s rows (k + 1) n pos (omega (arith, e))
            ∙ ap (λ m. drop m rows) (omega arith)
            ∙ sym (drop-drop s.page_size (k * s.page_size) rows))
      ∙ take-append-drop s.page_size (drop (k * s.page_size) rows)

  module _ (to_lower : Text → Text) (compare : Text → Text → Sign)
      (columns : List (DataColumn T)) where
    sort_by-Perm :
        (dir : Option SortDir) (col : Option (DataColumn T)) (rows : List T)
        → Perm (sort_by to_lower compare columns dir col rows) rows
    unfolding sort_by
    sort_by-Perm none col rows = Perm.refl rows
    sort_by-Perm (some dir) none rows = Perm.refl rows
    sort_by-Perm (some dir) (some col) rows =
        sort-Perm (comparison to_lower compare columns dir col) rows

    -- For a page size that is not nought, the pages from the first to the last, one behind the
    -- other, are the sorted rows, and those are the rows that the search keeps, each as often as
    -- before.
    pub pages_from-sorted :
        (s : TableState) (items : List T)
        → 0 < s.page_size
        → let rows = sorted to_lower compare columns s items in
          (pages_from s rows 1 (total_pages s.page_size rows) ≡ rows)
          × Perm rows (filtered to_lower compare columns s items)
    unfolding sorted
    pages_from-sorted s items pos =
        let rows = sorted to_lower compare columns s items in
        let first : 0 * s.page_size ≡ 0 = omega arith in
        (
          pages_from_rest s rows 0 (total_pages s.page_size rows) pos (omega arith)
              ∙ ap (λ m. drop m rows) first,
          sort_by-Perm s.sort_dir _ _,
        )
