-- ===== src/Fuzzy/Scores.antt =====
-- The range of the scores of each kind of match.
use mathlib.Core.Path.{subst}
use cloudscale_commerce.Prelude.{
  ℕ, ◌≤◌, ◌<◌, ◌≡◌, refl, true, false, Bool-cases, inl, inr, [], ◌∷◌, length, arith, ◌==◌, ==_iff,
}
use cloudscale_commerce.Number.{Number, IsRounding, IsAmount, IsRate, ◌≼◌, nought}
use cloudscale_commerce.Text.{Text, text_eq, trim, includes}
use cloudscale_commerce.Text.Equality.{text_eq_iff}
use cloudscale_commerce.Fuzzy.{
  Tally, scan, min_of, max_of, substring_score, tally_score, plain_score, fuzzy_match_score,
}
use cloudscale_commerce.Fuzzy.Scan.{
  Subseq, scan_counts, scan_iff, includes-Subseq, includes-nil, includes_refl, Subseq-length,
}

module _ {N : Type 0} ⦃num : Number N⦄ (laws : IsRounding N) where
  open num use {decimal, add, sub, mul, div, le}
  open laws use {
    le_refl, le_trans, decimal_mono, add_nonneg, le_add, add_mono, mul_nonneg, mul_rate, mul_comm,
    div_rate, sub_le, one_le_max, fifth, third,
  }

  -- A length that the arithmetic represents.
  abbrev pub Fits : Text → Type 0
  Fits t = decimal (length t) 0 ≼ num.max_value

  decimal-nonneg : (m k : ℕ) → nought ≼ decimal m k
  decimal-nonneg m k = decimal_mono 0 0 m k (omega arith)

  -- A tenth's multiple below one is an amount.
  tenths-IsAmount : (m : ℕ) → m ≤ 10 → IsAmount (decimal m 1)
  tenths-IsAmount m h =
      (decimal-nonneg m 1, le_trans _ _ _ (decimal_mono m 1 1 0 (omega arith)) one_le_max)

  -- A share `r` of `w` tenths on top of `b` tenths.
  share-bounds :
      (b w : ℕ) (r : N)
      → w ≤ 10
      → IsRate r
      → (decimal b 1 ≼ add (decimal b 1) (mul r (decimal w 1)))
        × (add (decimal b 1) (mul r (decimal w 1)) ≼ add (decimal b 1) (decimal w 1))
  share-bounds b w r h rate =
      let (amount, below) = mul_rate (decimal w 1) r (tenths-IsAmount w h) rate in
      rw (mul_comm r (decimal w 1)) (
        le_add _ _ (decimal-nonneg b 1) amount.0,
        add_mono _ _ _ _ (decimal-nonneg b 1) amount.0 (le_refl _ (decimal-nonneg b 1)) below,
      )

  substring_score-bounds :
      (q t : Text)
      → length q ≤ length t
      → 0 < length t
      → Fits t
      → (decimal 8 1 ≼ substring_score q t) × (substring_score q t ≼ decimal 1 0)
  unfolding substring_score
  substring_score-bounds q t h pos fits =
      (bounds.0, subst (λ top. substring_score q t ≼ top) fifth bounds.1)
    where
      ratio : N
      ratio = div (decimal (length q) 0) (decimal (length t) 0)

      bounds :
          (decimal 8 1 ≼ add (decimal 8 1) (mul ratio (decimal 2 1)))
          × (add (decimal 8 1) (mul ratio (decimal 2 1)) ≼ add (decimal 8 1) (decimal 2 1))
      bounds = share-bounds 8 2 ratio (omega arith) (div_rate (length q) (length t) h pos fits)

  max_of-bounds : (x y z : N) → nought ≼ x → x ≼ z → y ≼ z → (x ≼ max_of x y) × (max_of x y ≼ z)
  unfolding max_of
  max_of-bounds x y z pos hx hy = elim (Bool-cases (le x y)) [
    | inl up ↦ rw up (up, hy)
    | inr down ↦ rw down (le_refl x pos, hx)
  ]

  min_of-le : (x y z : N) → y ≼ z → min_of x y ≼ z
  unfolding min_of
  min_of-le x y z h = elim (Bool-cases (le x y)) [
    | inl low ↦ rw low (le_trans x y z low h)
    | inr high ↦ rw high h
  ]

  -- A query that is scattered over the target scores between a tenth and eight tenths.
  tally_score-bounds :
      (q t : Text) (tally : Tally)
      → (tally.matches == length q) ≡ true
      → tally.matches ≤ length t
      → tally.gaps ≤ length t
      → 0 < length t
      → Fits t
      → (decimal 1 1 ≼ tally_score q t tally) × (tally_score q t tally ≼ decimal 8 1)
  unfolding tally_score
  tally_score-bounds q t tally all few_matches few_gaps pos fits = rw all (
      max_of-bounds (decimal 1 1) (min_of (decimal 9 1) score) (decimal 8 1) (decimal-nonneg 1 1)
        (decimal_mono 1 1 8 1 (omega arith)) (min_of-le (decimal 9 1) score (decimal 8 1) small))
    where
      ratio : N
      ratio = div (decimal tally.matches 0) (decimal (length t) 0)

      whole : N
      whole = add (decimal 5 1) (mul ratio (decimal 3 1))

      penalty : N
      penalty = mul (decimal tally.gaps 0) (decimal 1 2)

      score : N
      score = sub whole penalty

      bounds : (decimal 5 1 ≼ whole) × (whole ≼ add (decimal 5 1) (decimal 3 1))
      bounds =
          share-bounds 5 3 ratio (omega arith)
            (div_rate tally.matches (length t) few_matches pos fits)

      below : whole ≼ decimal 8 1
      below = subst (λ top. whole ≼ top) third bounds.1

      whole-IsAmount : IsAmount whole
      whole-IsAmount = (
        le_trans _ _ _ (decimal-nonneg 5 1) bounds.0,
        le_trans _ _ _ below (tenths-IsAmount 8 (omega arith)).1,
      )

      penalty-nonneg : nought ≼ penalty
      penalty-nonneg =
          mul_nonneg (decimal tally.gaps 0) (decimal 1 2)
            (
              decimal-nonneg tally.gaps 0,
              le_trans _ _ _ (decimal_mono tally.gaps 0 (length t) 0 (omega arith)) fits,
            )
            (decimal-nonneg 1 2, le_trans _ _ _ (decimal_mono 1 2 1 0 (omega arith)) one_le_max)

      small : score ≼ decimal 8 1
      small = le_trans _ _ _ (sub_le whole penalty whole-IsAmount penalty-nonneg) below

  -- The score of a query that is part of the target, of one that is scattered over it, and of one
  -- that is neither.
  pub data Ranked (q t : Text) (score : N) : Type 0 where
    part : includes t q ≡ true → decimal 8 1 ≼ score → score ≼ decimal 1 0 → Ranked q t score
    scattered :
        includes t q ≡ false
        → Subseq q t
        → decimal 1 1 ≼ score
        → score ≼ decimal 8 1
        → Ranked q t score
    missing : ¬ Subseq q t → score ≡ decimal 0 0 → Ranked q t score

  tally_score-none :
      (q t : Text) (tally : Tally)
      → (tally.matches == length q) ≡ false
      → tally_score q t tally ≡ decimal 0 0
  unfolding tally_score
  tally_score-none q t tally some_left = rw some_left refl

  score_of_scan :
      (q t : Text)
      → 0 < length t
      → Fits t
      → includes t q ≡ false
      → Ranked q t (tally_score q t (scan 0 0 q t))
  score_of_scan q t pos fits apart = elim (Bool-cases (tally.matches == length q)) [
    | inl all ↦
        let whole : tally.matches ≡ length q = (==_iff _ _).0 all in
        let found = (scan_iff q t).0 whole in
        let bounds =
          tally_score-bounds q t tally all (omega (arith, Subseq-length found))
            (omega (arith, scan_counts 0 0 q t)) pos fits in
        scattered apart found bounds.0 bounds.1
    | inr rest ↦
        missing (λ s. ground (arith, ==_iff tally.matches (length q), (scan_iff q t).1 s, rest))
          (tally_score-none q t tally rest)
  ]
    where
      tally : Tally
      tally = scan 0 0 q t

  one-Ranked : (q t : Text) → includes t q ≡ true → Ranked q t (decimal 1 0)
  one-Ranked q t inside =
      part inside (decimal_mono 8 1 1 0 (omega arith)) (le_refl _ (decimal-nonneg 1 0))

  plain_score-Ranked : (q t : Text) → Fits t → Ranked q t (plain_score q t)
  unfolding plain_score text_eq
  plain_score-Ranked [] t fits = one-Ranked [] t (includes-nil t)
  plain_score-Ranked (c ∷ q) [] fits = missing (λ s. elim s [ ]) refl
  plain_score-Ranked (c ∷ q) (d ∷ t) fits = elim (Bool-cases (text_eq (c ∷ q) (d ∷ t))) [
    | inl same ↦ rw same (
        one-Ranked (c ∷ q) (d ∷ t)
          (rw ((text_eq_iff (c ∷ q) (d ∷ t)).0 same) (includes_refl (d ∷ t))))
    | inr other ↦ rw other (elim (Bool-cases (includes (d ∷ t) (c ∷ q))) [
      | inl inside ↦
          let bounds =
            substring_score-bounds (c ∷ q) (d ∷ t) (Subseq-length (includes-Subseq _ _ inside))
              (omega arith) fits in
          rw inside (part inside bounds.0 bounds.1)
      | inr apart ↦ rw apart (score_of_scan (c ∷ q) (d ∷ t) (omega arith) fits apart)
    ])
  ]

  -- For a target whose length the arithmetic represents: a query that is part of it, both in lower case and trimmed, scores from eight tenths to
  -- one; one that is scattered over it, from a tenth to eight tenths; any other scores nought. So a
  -- part never ranks below a scattered match.
  pub fuzzy_match_score-Ranked :
      (to_lower : Text → Text) (query target : Text)
      → Fits (trim (to_lower target))
      → Ranked
          (trim (to_lower query))
          (trim (to_lower target))
          (fuzzy_match_score to_lower query target)
  unfolding fuzzy_match_score
  fuzzy_match_score-Ranked to_lower query target fits =
      plain_score-Ranked (trim (to_lower query)) (trim (to_lower target)) fits
