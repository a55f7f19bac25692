-- ===== src/Ui/Pagination/Laws.antt =====
-- The bar goes from the first page to the last.
use mathlib.Core.Path.{subst}
use cloudscale_commerce.Prelude.{
  ℕ, zero, suc, ◌+◌, ◌-◌, ◌<◌, ◌≤◌, ltb, ltb→lt, ◌≡◌, refl, sym, true, false, Bool-cases, inl, inr,
  if◌then◌else◌, List, [], ◌∷◌, ◌++◌, arith,
}
use cloudscale_commerce.Ui.Pagination.{Entry, page, dots, range, larger, smaller, get_pages}

-- What follows the entry of the page `at`: the entry of the next page, or the dots and the entry of a
-- page that is not the next one; and it ends with the last page.
pub data Follows (total : ℕ) : ℕ → List Entry → Type 0 where
  ends : {at : ℕ} → at ≡ total → Follows total at []
  next :
      {at later : ℕ} {rest : List Entry}
      → later ≡ at + 1
      → Follows total later rest
      → Follows total at (page later ∷ rest)
  skips :
      {at later : ℕ} {rest : List Entry}
      → at + 1 < later
      → Follows total later rest
      → Follows total at (dots ∷ page later ∷ rest)

-- The pages of the loop follow one another.
range-Follows :
    (total at start count stop : ℕ) (rest : List Entry)
    → start ≡ at + 1
    → stop ≡ at + count
    → Follows total stop rest
    → Follows total at (range start count ++ rest)
unfolding range
range-Follows total at start zero stop rest p q h =
    let same : stop ≡ at = omega (arith, q) in subst (λ a. Follows total a rest) same h
range-Follows total at start (suc count) stop rest p q h =
    next p (range-Follows total start (start + 1) count stop rest refl (omega (arith, p, q)) h)

-- The end of the bar, after the page `right`.
tail-Follows :
    (total right : ℕ)
    → 1 < total
    → right < total
    → Follows total right (
        (if ltb right (total - 1) then dots ∷ [] else [])
        ++ (if ltb 1 total then page total ∷ [] else []))
tail-Follows total right several h =
    let shows : ltb 1 total ≡ true = ground arith in
    rw shows (elim (Bool-cases (ltb right (total - 1))) [
      | inl far ↦
          rw far
            (skips (let gap : right < total - 1 = ltb→lt _ _ far in omega (arith, gap)) (ends refl))
      | inr near ↦ let last : total ≡ right + 1 = ground arith in rw near (next last (ends refl))
    ])

-- The pages from `left` on, after the first page, and what is left out before them.
loop-Follows :
    (total left count stop : ℕ) (rest : List Entry)
    → 2 ≤ left
    → stop + 1 ≡ left + suc count
    → Follows total stop rest
    → Follows total 1 ((if ltb 2 left then dots ∷ [] else []) ++ (range left (suc count) ++ rest))
unfolding range
loop-Follows total left count stop rest from reach h = elim (Bool-cases (ltb 2 left)) [
  | inl far ↦ rw far (
      skips (let gap : 2 < left = ltb→lt _ _ far in omega (arith, gap))
        (range-Follows total left (left + 1) count stop rest refl (omega (arith, reach)) h))
  | inr near ↦
      let second : left ≡ 1 + 1 = ground arith in
      rw near (
        next second
          (range-Follows total left (left + 1) count stop rest refl (omega (arith, reach)) h))
]

-- The bar, as an independent description of it.
pub data IsBar (total : ℕ) : List Entry → Type 0 where
  starts : {rest : List Entry} → Follows total 1 rest → IsBar total (page 1 ∷ rest)

module _ (total left right : ℕ) (several : 1 < total) (from : 2 ≤ left) (to : left ≤ total)
    (low : 1 ≤ right) (high : right < total) where
  -- Where the loop has nothing to do.
  empty-Follows :
      right < left
      → (2 < left → right + 1 ≡ total)
      → Follows total 1 (
          (if ltb 2 left then dots ∷ [] else [])
          ++ ((if ltb right (total - 1) then dots ∷ [] else [])
              ++ (if ltb 1 total then page total ∷ [] else [])))
  empty-Follows none_between end = elim (Bool-cases (ltb 2 left)) [
    | inl far ↦
        let last : right + 1 ≡ total = end (ltb→lt _ _ far) in
        let stops : ltb right (total - 1) ≡ false = ground arith in
        let shows : ltb 1 total ≡ true = ground arith in
        let gap : 2 < left = ltb→lt _ _ far in
        rw (far, stops, shows) (skips (omega (arith, gap)) (ends refl))
    | inr near ↦
        let first : right ≡ 1 = ground arith in
        rw near (
          subst
            (λ r. Follows total 1 (
              (if ltb r (total - 1) then dots ∷ [] else [])
              ++ (if ltb 1 total then page total ∷ [] else [])))
            (sym first) (tail-Follows total 1 several several))
  ]

  -- With the number of pages of the loop.
  counted-Follows :
      (count : ℕ)
      → right + 1 - left ≡ count
      → (right < left → 2 < left → right + 1 ≡ total)
      → Follows total 1 (
          (if ltb 2 left then dots ∷ [] else [])
          ++ (range left count
              ++ ((if ltb right (total - 1) then dots ∷ [] else [])
                  ++ (if ltb 1 total then page total ∷ [] else []))))
  unfolding range
  counted-Follows zero e end =
      let empty : right < left = omega (arith, e) in empty-Follows empty (end empty)
  counted-Follows (suc count) e end =
      loop-Follows total left count right _ from (omega (arith, e))
        (tail-Follows total right several high)

-- There are several pages and the current one is one of them: the bar starts with the first page and
-- goes up to the last, with the dots exactly where pages are left out.
pub get_pages-IsBar :
    (current total siblings : ℕ)
    → 1 ≤ current
    → current ≤ total
    → 1 < total
    → IsBar total (get_pages current total siblings)
unfolding get_pages larger smaller
get_pages-IsBar current total siblings from to several = starts (
    counted-Follows total (larger 2 (current - siblings)) (smaller (total - 1) (current + siblings))
      several (ground arith) (ground arith) (ground arith) (ground arith) _ refl (ground arith))
