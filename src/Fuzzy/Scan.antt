-- ===== src/Fuzzy/Scan.antt =====
-- The loop of `fuzzyMatchScore` finds the query in the target exactly when it is a subsequence.
use cloudscale_commerce.Prelude.{
  ℕ, ◌+◌, ◌≤◌, ◌≡◌, ◌↔◌, refl, ap, true, false, Bool-cases, inl, inr, [], ◌∷◌, length, arith, ◌==◌,
  ==_iff,
}
use cloudscale_commerce.Text.{Text, starts_with, includes}
use cloudscale_commerce.Fuzzy.{scan}

-- The units of the query stand in the target in their order, perhaps with others between them.
pub data Subseq : Text → Text → Type 0 where
  done : (t : Text) → Subseq [] t
  keep : {c d : ℕ} {q t : Text} → c ≡ d → Subseq q t → Subseq (c ∷ q) (d ∷ t)
  skip : {d : ℕ} {q t : Text} → Subseq q t → Subseq q (d ∷ t)

-- Every unit of the query is matched or left, and every unit that is read is matched or a gap.
pub scan_counts :
    (matches gaps : ℕ) (q t : Text)
    → let tally = scan matches gaps q t in
      (tally.matches + length tally.left ≡ matches + length q)
      × (tally.matches + tally.gaps ≤ matches + gaps + length t)
unfolding scan
scan_counts matches gaps [] t = (omega arith, omega arith)
scan_counts matches gaps (c ∷ q) [] = (omega arith, omega arith)
scan_counts matches gaps (c ∷ q) (d ∷ t) =
    ground (arith, scan_counts (matches + 1) gaps q t, scan_counts matches (gaps + 1) (c ∷ q) t)

scan_sound : (matches gaps : ℕ) (q t : Text) → (scan matches gaps q t).left ≡ [] → Subseq q t
unfolding scan
scan_sound matches gaps [] t e = done t
scan_sound matches gaps (c ∷ q) [] e = cc
scan_sound matches gaps (c ∷ q) (d ∷ t) e = elim (Bool-cases (c == d)) [
  | inl same ↦ keep ((==_iff c d).0 same) (scan_sound (matches + 1) gaps q t (rw same at e))
  | inr other ↦ skip (scan_sound matches (gaps + 1) (c ∷ q) t (rw other at e))
]

-- A subsequence may be matched greedily: its tail is one of the tail.
Subseq-tail : {c d : ℕ} {q t : Text} → Subseq (c ∷ q) (d ∷ t) → Subseq q t
Subseq-tail (keep e s) = s
Subseq-tail (skip s) = drop_head s
  where
    drop_head : {c : ℕ} {q t : Text} → Subseq (c ∷ q) t → Subseq q t
    drop_head (keep e s) = skip s
    drop_head (skip s) = skip (drop_head s)

Subseq-other : {c d : ℕ} {q t : Text} → (c == d) ≡ false → Subseq (c ∷ q) (d ∷ t) → Subseq (c ∷ q) t
Subseq-other {c} {d} other (keep e s) = absurd (ground (arith, ==_iff c d))
Subseq-other other (skip s) = s

scan_complete : (matches gaps : ℕ) (q t : Text) → Subseq q t → (scan matches gaps q t).left ≡ []
unfolding scan
scan_complete matches gaps [] t s = refl
scan_complete matches gaps (c ∷ q) [] s = elim s [ ]
scan_complete matches gaps (c ∷ q) (d ∷ t) s = elim (Bool-cases (c == d)) [
  | inl same ↦ rw same (scan_complete (matches + 1) gaps q t (Subseq-tail s))
  | inr other ↦ rw other (scan_complete matches (gaps + 1) (c ∷ q) t (Subseq-other other s))
]

empty_of_length : (s : Text) → length s ≡ 0 → s ≡ []
empty_of_length [] h = refl
empty_of_length (c ∷ s) h = absurd (omega arith)

-- The loop counts as many matches as the query has units exactly when the query is a subsequence.
pub scan_iff : (q t : Text) → ((scan 0 0 q t).matches ≡ length q) ↔ Subseq q t
scan_iff q t = (
  (λ e. scan_sound 0 0 q t (empty_of_length _ (omega (arith, scan_counts 0 0 q t)))),
  (λ s. omega (arith, scan_counts 0 0 q t, ap length (scan_complete 0 0 q t s))),
)

starts_with-Subseq : (t q : Text) → starts_with t q ≡ true → Subseq q t
unfolding starts_with
starts_with-Subseq t [] h = done t
starts_with-Subseq [] (c ∷ q) h = cc
starts_with-Subseq (d ∷ t) (c ∷ q) h =
    keep (ground (arith, ==_iff d c)) (starts_with-Subseq t q (ground arith))

pub includes-Subseq : (t q : Text) → includes t q ≡ true → Subseq q t
unfolding includes
includes-Subseq [] q h = starts_with-Subseq [] q h
includes-Subseq (d ∷ t) q h = elim (Bool-cases (starts_with (d ∷ t) q)) [
  | inl here ↦ starts_with-Subseq (d ∷ t) q here
  | inr later ↦ skip (includes-Subseq t q (rw later at h))
]

pub Subseq-length : {q t : Text} → Subseq q t → length q ≤ length t
Subseq-length (done t) = omega arith
Subseq-length (keep e s) = omega (arith, Subseq-length s)
Subseq-length (skip s) = omega (arith, Subseq-length s)

pub includes-nil : (t : Text) → includes t [] ≡ true
unfolding includes starts_with
includes-nil [] = refl
includes-nil (d ∷ t) = refl

starts_with_refl : (t : Text) → starts_with t t ≡ true
unfolding starts_with
starts_with_refl [] = refl
starts_with_refl (c ∷ t) = ground (arith, starts_with_refl t)

pub includes_refl : (t : Text) → includes t t ≡ true
unfolding includes
includes_refl [] = starts_with_refl []
includes_refl (c ∷ t) = rw (starts_with_refl (c ∷ t)) refl
