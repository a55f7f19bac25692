-- ===== src/Security/Checksum/Hex.antt =====
-- `toString(16)` writes each 32-bit number in its own way.
use cloudscale_commerce.Prelude.{
  ℕ, zero, suc, ◌+◌, ◌-◌, ◌*◌, ◌/◌, ◌%◌, ◌^◌, ◌<◌, ◌≡◌, sym, ap, ◌∙◌, Bool-cases, inl, inr,
  if◌then◌else◌, ltb, [], ◌∷◌, foldl, arith, ◌==◌,
}
use native.Mathlib.Nat.{pow-suc}
use cloudscale_commerce.Text.{Text}
use cloudscale_commerce.Security.Checksum.{word, hex_digit, hex_from, to_hex}

-- The value of a digit, and of a text of digits.
digit_value : ℕ → ℕ
digit_value c = if ltb c 87 then c - 48 else c - 87

abbrev shift_in : ℕ → ℕ → ℕ
shift_in value c = value * 16 + digit_value c

pub hex_value : Text → ℕ
hex_value = foldl shift_in 0

digit_value-hex_digit : (d : ℕ) → d < 16 → digit_value (hex_digit d) ≡ d
unfolding digit_value hex_digit
digit_value-hex_digit d h = ground arith

hex_value-hex_from :
    (fuel n : ℕ) (done : Text)
    → n < 16 ^ fuel
    → hex_value (hex_from fuel n done) ≡ foldl shift_in n done
unfolding hex_from hex_value
hex_value-hex_from zero n done h =
    ap (λ m. foldl shift_in m done) (let nought : 0 ≡ n = omega arith in nought)
hex_value-hex_from (suc fuel) n done h = elim (Bool-cases (n == 0)) [
  | inl spent ↦
      rw spent (ap (λ m. foldl shift_in m done) (let nought : 0 ≡ n = ground arith in nought))
  | inr more ↦ rw more (
      hex_value-hex_from fuel (n / 16) (hex_digit (n % 16) ∷ done) (omega (arith, pow-suc 16 fuel))
      ∙ ap (λ m. foldl shift_in m done) (whole n))
]
  where
    whole : (n : ℕ) → n / 16 * 16 + digit_value (hex_digit (n % 16)) ≡ n
    whole n = omega (arith, digit_value-hex_digit (n % 16) (omega arith))

-- The digits have the value of the number: eight of them suffice below 2³².
pub hex_value-to_hex : (n : ℕ) → n < word → hex_value (to_hex n) ≡ n
unfolding to_hex hex_value digit_value
hex_value-to_hex n h = elim (Bool-cases (n == 0)) [
  | inl none ↦ rw none (let nought : 0 ≡ n = ground arith in nought)
  | inr more ↦ rw more (hex_value-hex_from 8 n [] (omega arith))
]

pub to_hex-injective : (m n : ℕ) → m < word → n < word → to_hex m ≡ to_hex n → m ≡ n
to_hex-injective m n p q e = sym (hex_value-to_hex m p) ∙ ap hex_value e ∙ hex_value-to_hex n q
