-- ===== src/Security/Checksum/Detects.antt =====
-- What the checksum detects.
use cloudscale_commerce.Prelude.{
  ℕ, ◌*◌, ◌%◌, ◌<◌, ◌≡◌, ◌≢◌, refl, sym, ◌∙◌, All-append, [], ◌∷◌, ◌++◌, All, arith,
}
use cloudscale_commerce.Text.{Text}
use cloudscale_commerce.Security.Checksum.{word, hash_unit, hash_from, compute_hash}
use cloudscale_commerce.Security.Checksum.Hex.{to_hex-injective}
use cloudscale_commerce.Security.Checksum.Xor.{
  bit_xor_cancel_left, bit_xor_cancel_right, bit_xor-lt, mul_33_cancel,
}

-- A UTF-16 code unit.
abbrev pub IsUnit : ℕ → Type 0
IsUnit c = c < 65_536

hash_unit-lt : (hash c : ℕ) → IsUnit c → hash_unit hash c < word
unfolding hash_unit
hash_unit-lt hash c h = bit_xor-lt 32 (hash * 33 % word) c (omega arith) (omega arith)

hash_from-lt : (hash : ℕ) (s : Text) → hash < word → All IsUnit s → hash_from hash s < word
unfolding hash_from
hash_from-lt hash [] h u = h
hash_from-lt hash (c ∷ s) h (uc, u) = hash_from-lt (hash_unit hash c) s (hash_unit-lt hash c uc) u

hash_from-append :
    (hash : ℕ) (s t : Text) → hash_from hash (s ++ t) ≡ hash_from (hash_from hash s) t
unfolding hash_from
hash_from-append hash [] t = refl
hash_from-append hash (c ∷ s) t = hash_from-append (hash_unit hash c) s t

-- The rest of a text never brings two different states together.
hash_from-injective :
    (g h : ℕ) (s : Text)
    → g < word
    → h < word
    → All IsUnit s
    → hash_from g s ≡ hash_from h s
    → g ≡ h
unfolding hash_from hash_unit
hash_from-injective g h [] p q u e = e
hash_from-injective g h (c ∷ s) p q (uc, u) e = mul_33_cancel g h p q (
    bit_xor_cancel_right _ _ c (
      hash_from-injective (hash_unit g c) (hash_unit h c) s (hash_unit-lt g c uc)
        (hash_unit-lt h c uc) u e))

-- A change of one unit is seen in the state behind the text.
same_unit :
    (s t : Text) (c d : ℕ)
    → All IsUnit t
    → IsUnit c
    → IsUnit d
    → hash_from 5381 (s ++ c ∷ t) ≡ hash_from 5381 (s ++ d ∷ t)
    → c ≡ d
unfolding hash_unit hash_from
same_unit s t c d ut uc ud e = bit_xor_cancel_left _ c d (
    hash_from-injective (hash_unit start c) (hash_unit start d) t (hash_unit-lt start c uc)
      (hash_unit-lt start d ud) ut
      (sym (hash_from-append 5381 s (c ∷ t)) ∙ e ∙ hash_from-append 5381 s (d ∷ t)))
  where
    start : ℕ
    start = hash_from 5381 s

hash_from-bounded :
    (s t : Text) (c : ℕ)
    → All IsUnit s
    → All IsUnit t
    → IsUnit c
    → hash_from 5381 (s ++ c ∷ t) < word
hash_from-bounded s t c us ut uc =
    hash_from-lt 5381 (s ++ c ∷ t) (omega arith) (All-append IsUnit s (c ∷ t) us (uc, ut))

-- Two texts of 16-bit code units that differ in just one unit have different checksums.
pub compute_hash_detects :
    (s t : Text) (c d : ℕ)
    → All IsUnit s
    → All IsUnit t
    → IsUnit c
    → IsUnit d
    → c ≢ d
    → compute_hash (s ++ c ∷ t) ≢ compute_hash (s ++ d ∷ t)
unfolding compute_hash
compute_hash_detects s t c d us ut uc ud differ e = differ (
    same_unit s t c d ut uc ud (
      to_hex-injective _ _ (hash_from-bounded s t c us ut uc) (hash_from-bounded s t d us ut ud) e))
