-- ===== src/Text/Trim.antt =====
-- `trim`: what it leaves begins and ends without white space, and a second call changes nothing.
use mathlib.Core.List.{reverse-reverse, reverse-append}
use cloudscale_commerce.Prelude.{
  ◌≡◌, refl, ◌∙◌, false, Bool-cases, inl, inr, [], ◌∷◌, ◌++◌, reverse, arith, ap,
}
use cloudscale_commerce.Text.{Text, is_space, trim_start, trim}

-- A text with no white space at its head.
abbrev HeadPlain : Text → Type 0
HeadPlain [] = Unit
HeadPlain (c ∷ s) = is_space c ≡ false

trim_start-HeadPlain : (s : Text) → HeadPlain (trim_start s)
unfolding trim_start
trim_start-HeadPlain [] = tt
trim_start-HeadPlain (c ∷ s) = ground (arith, trim_start-HeadPlain s)

trim_start_of_HeadPlain : (s : Text) → HeadPlain s → trim_start s ≡ s
unfolding trim_start
trim_start_of_HeadPlain [] h = refl
trim_start_of_HeadPlain (c ∷ s) h = rw h refl

-- Trimming the end keeps a plain head.
HeadPlain-prefix : (s t : Text) → HeadPlain (s ++ t) → HeadPlain s
HeadPlain-prefix [] t h = tt
HeadPlain-prefix (c ∷ s) t h = h

trim_start-suffix : (s : Text) → (dropped : Text) × (dropped ++ trim_start s ≡ s)
unfolding trim_start
trim_start-suffix [] = ([], refl)
trim_start-suffix (c ∷ s) = elim (Bool-cases (is_space c)) [
  | inl space ↦ let (d, e) = trim_start-suffix s in (c ∷ d, rw space (ap (◌∷◌ c) e))
  | inr plain ↦ ([], rw plain refl)
]

abbrev trim_end : Text → Text
trim_end s = reverse (trim_start (reverse s))

trim_end-HeadPlain : (s : Text) → HeadPlain s → HeadPlain (trim_end s)
trim_end-HeadPlain s h =
    let (d, e) = trim_start-suffix (reverse s) in
    HeadPlain-prefix (trim_end s) (reverse d)
      (rw (← reverse-append d (trim_start (reverse s)), e, reverse-reverse s) h)

trim_end_idempotent : (s : Text) → trim_end (trim_end s) ≡ trim_end s
trim_end_idempotent s = ap reverse (
    ap trim_start (reverse-reverse (trim_start (reverse s)))
    ∙ trim_start_of_HeadPlain (trim_start (reverse s)) (trim_start-HeadPlain (reverse s)))

-- A text that was trimmed is not changed by a second `trim`.
pub trim_idempotent : (s : Text) → trim (trim s) ≡ trim s
unfolding trim
trim_idempotent s =
    ap trim_end (
      trim_start_of_HeadPlain (trim_end (trim_start s))
        (trim_end-HeadPlain (trim_start s) (trim_start-HeadPlain s)))
    ∙ trim_end_idempotent (trim_start s)
