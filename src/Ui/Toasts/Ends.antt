-- ===== src/Ui/Toasts/Ends.antt =====
-- Every toast goes away.
use mathlib.Core.Path.{subst}
use native.Mathlib.Nat.{mul-le-mul_right, suc-mul}
use cloudscale_commerce.Prelude.{
  ℕ, zero, suc, ◌+◌, ◌*◌, ◌≤◌, ◌<◌, ◌≡◌, refl, sym, leb, true, Bool-cases, inl, inr, Option, none,
  some, List, [], ◌∷◌, map, filter, length, length-filter-le, All, All-filter, eq_refl, arith,
}
use cloudscale_commerce.Ui.Toasts.{
  Item, delay_of, restarted, start_timers, other_id, remove, due, elapsed, after_tick, tick, ticks,
}

abbrev pub IsBrief : ℕ → Item → Type 0
IsBrief d i = delay_of i.shown.duration ≤ d

abbrev pub IsWithin : ℕ → Item → Type 0
IsWithin b i = i.left ≤ b

length-map : (f : Item → Item) (items : List Item) → length (map f items) ≡ length items
length-map f [] = refl
length-map f (i ∷ items) = omega (arith, length-map f items)

length-filter-due :
    (items : List Item) (i : Item)
    → due items ≡ some i
    → length (filter (other_id i.shown.id) items) < length items
unfolding due other_id
length-filter-due [] i e = cc
length-filter-due (j ∷ items) i e = elim (Bool-cases (leb j.left 1)) [
  | inl now ↦
      let found : some j ≡ some i = rw now at e in
      let same : j ≡ i = cc in
      subst (λ x. length (filter (other_id x.shown.id) (j ∷ items)) < length (j ∷ items)) same
        (rw (eq_refl j.shown.id) (omega (arith, length-filter-le (other_id j.shown.id) items)))
  | inr later ↦
      let found : due items ≡ some i = rw later at e in
      ground (arith, length-filter-due items i found)
]

-- The toast that is due is taken out.
length-remove :
    (items : List Item) (i : Item)
    → due items ≡ some i
    → length (remove i.shown.id items) < length items
unfolding remove start_timers
length-remove items i e =
    omega (
      arith,
      length-map restarted (filter (other_id i.shown.id) items),
      length-filter-due items i e,
    )

start_timers-All :
    (d : ℕ) (items : List Item)
    → All (IsBrief d) items
    → All (IsBrief d) (start_timers items) × All (IsWithin d) (start_timers items)
unfolding start_timers restarted
start_timers-All d [] h = (tt, tt)
start_timers-All d (i ∷ items) (p, h) =
    let (brief, within) = start_timers-All d items h in ((p, brief), (p, within))

-- A millisecond without a timer that fires.
elapsed-All :
    (d b : ℕ) (items : List Item)
    → due items ≡ none
    → All (IsBrief d) items
    → All (IsWithin (suc b)) items
    → All (IsBrief d) (map elapsed items) × All (IsWithin b) (map elapsed items)
unfolding due elapsed
elapsed-All d b [] e h k = (tt, tt)
elapsed-All d b (i ∷ items) e (p, h) (q, k) = elim (Bool-cases (leb i.left 1)) [
  | inl now ↦ let wrong : some i ≡ none = rw now at e in cc
  | inr later ↦
      let (brief, within) = elapsed-All d b items (rw later at e) h k in
      ((p, brief), (omega (arith, q), within))
]

-- The first timer that fires, if none of them has more than nothing left.
due_soon : (items : List Item) → due items ≡ none → All (IsWithin 1) items → items ≡ []
unfolding due
due_soon [] e h = refl
due_soon (i ∷ items) e (p, h) =
    let now : leb i.left 1 ≡ true = ground arith in let wrong : some i ≡ none = rw now at e in cc

mul_step : (m n d : ℕ) → m < n → m * d + d ≤ n * d
mul_step m n d h = let whole : suc m * d ≤ n * d = mul-le-mul_right d h in rw (suc-mul m d) at whole

-- Every delay is at most `d`, every timer has at most `b` left, and `n` milliseconds are enough.
abbrev pub IsEnough : (n d b : ℕ) → List Item → Type 0
IsEnough n d b items =
    (1 ≤ b)
    × (b ≤ d)
    × All (IsBrief d) items
    × All (IsWithin b) items
    × (length items * d + b ≤ n + d)

elapsed-IsEnough :
    (n d b : ℕ) (items : List Item)
    → due items ≡ none
    → IsEnough (suc n) d b items
    → (c : ℕ) × IsEnough n d c (map elapsed items)
elapsed-IsEnough n d zero items e (low, high, brief, within, enough) = absurd (omega (arith, low))
elapsed-IsEnough n d (suc zero) items e (low, high, brief, within, enough) =
    let none_left : items ≡ [] = due_soon items e within in
    (
      1,
      subst (λ xs. IsEnough n d 1 (map elapsed xs)) (sym none_left)
          (low, high, tt, tt, omega (arith, high)),
    )
elapsed-IsEnough n d (suc (suc b)) items e (low, high, brief, within, enough) =
    let (shorter, less) = elapsed-All d (suc b) items e brief within in
    (
      suc b,
      (
        omega arith,
        omega (arith, high),
        shorter,
        less,
        rw (length-map elapsed items) (omega (arith, enough)),
      ),
    )

remove-IsEnough :
    (n d b : ℕ) (items : List Item) (i : Item)
    → due items ≡ some i
    → IsEnough (suc n) d b items
    → IsEnough n d d (remove i.shown.id items)
unfolding remove
remove-IsEnough n d b items i e (low, high, brief, within, enough) =
    let (short, started) =
      start_timers-All d (filter (other_id i.shown.id) items)
        (All-filter (IsBrief d) (other_id i.shown.id) items brief) in
    let fewer = mul_step _ _ d (length-remove items i e) in
    (omega (arith, low, high), omega arith, short, started, omega (arith, fewer, enough, low))

after_tick-IsEnough :
    (n d b : ℕ) (items : List Item) (found : Option Item)
    → due items ≡ found
    → IsEnough (suc n) d b items
    → (c : ℕ) × IsEnough n d c (after_tick found items)
unfolding after_tick
after_tick-IsEnough n d b items none e h = elapsed-IsEnough n d b items e h
after_tick-IsEnough n d b items (some i) e h = (d, remove-IsEnough n d b items i e h)

ticks-IsEnough : (n d b : ℕ) (items : List Item) → IsEnough n d b items → ticks n items ≡ []
unfolding ticks tick
ticks-IsEnough zero d b [] h = refl
ticks-IsEnough zero d b (i ∷ items) (low, high, brief, within, enough) =
    absurd (omega (arith, low, enough, suc-mul (length items) d))
ticks-IsEnough (suc n) d b items h =
    let (c, k) = after_tick-IsEnough n d b items (due items) refl h in
    ticks-IsEnough n d c (tick items) k

-- No toast is added, and none has a delay of more than `d` milliseconds, which is one at least. From
-- when the timers are started, as many times `d` milliseconds as there are toasts are enough for all of
-- them to go away, although each one that goes starts the timers of the others again.
pub ticks-start_timers :
    (d : ℕ) (items : List Item)
    → 1 ≤ d
    → All (IsBrief d) items
    → ticks (length items * d) (start_timers items) ≡ []
unfolding start_timers
ticks-start_timers d items low brief =
    let (short, started) = start_timers-All d items brief in
    ticks-IsEnough (length items * d) d d (start_timers items)
      (low, omega arith, short, started, rw (length-map restarted items) (omega arith))
