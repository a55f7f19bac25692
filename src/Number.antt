-- ===== src/Number.antt =====
-- JavaScript numbers as the source uses them: decimal literals, the four operations, comparisons,
-- and `parseFloat(x.toFixed(2))`. Their arithmetic belongs to the language's runtime, so it is an
-- interface; the laws are the documented ones of IEEE 754 arithmetic, on the values where they hold.
use native.Mathlib.Nat
use native.Mathlib.Nat.{
  div-le_of_le-mul, mul-le-mul, mul-le-mul_left, mul-le-mul_right, mul-div-le, le-div_iff_mul-le,
  le_of_mul-le-mul_right, pow-suc,
}
use cloudscale_commerce.Prelude.{
  ℕ, zero, suc, ◌+◌, ◌-◌, ◌*◌, ◌/◌, ◌^◌, ◌≤◌, ◌<◌, ◌≡◌, refl, ap, Bool, true, false, ltb, leb,
  arith,
}

pub record Number (N : Type 0) : Type 0 where
  pub decimal : ℕ → ℕ → N  -- the literal m · 10⁻ᵏ
  pub add : N → N → N
  pub sub : N → N → N
  pub mul : N → N → N
  pub div : N → N → N
  pub le : N → N → Bool
  pub lt : N → N → Bool
  pub to_fixed2 : N → N  -- `parseFloat(x.toFixed(2))`
  pub max_value : N  -- `Number.MAX_VALUE`

infix 50 ◌≼◌
abbrev pub ◌≼◌ : {N : Type 0} ⦃num : Number N⦄ → N → N → Type 0
◌≼◌ ⦃num⦄ x y = num.le x y ≡ true

abbrev pub nought : {N : Type 0} ⦃num : Number N⦄ → N
nought ⦃num⦄ = num.decimal 0 0

abbrev pub one : {N : Type 0} ⦃num : Number N⦄ → N
one ⦃num⦄ = num.decimal 1 0

-- Neither NaN, nor negative, nor infinite.
abbrev pub IsAmount : {N : Type 0} ⦃num : Number N⦄ → N → Type 0
IsAmount ⦃num⦄ x = (nought ≼ x) × (x ≼ num.max_value)

-- A number from 0 to 1.
abbrev pub IsRate : {N : Type 0} ⦃num : Number N⦄ → N → Type 0
IsRate ⦃num⦄ x = (nought ≼ x) × (x ≼ one)

-- Rounding to the nearest double is monotone, which gives these. None of them claims that a sum or
-- a product is exact, and each holds with NaN and the infinities among the values of `N`.
pub record IsRounding (N : Type 0) ⦃num : Number N⦄ : Type 0 where
  pub le_refl : (x : N) → nought ≼ x → x ≼ x
  pub le_trans : (x y z : N) → x ≼ y → y ≼ z → x ≼ z
  pub decimal_mono : (m k n j : ℕ) → m * 10 ^ j ≤ n * 10 ^ k → num.decimal m k ≼ num.decimal n j
  pub add_nonneg : (x y : N) → nought ≼ x → nought ≼ y → nought ≼ num.add x y
  pub le_add : (x y : N) → nought ≼ x → nought ≼ y → x ≼ num.add x y
  pub le_add_left : (x y : N) → nought ≼ x → nought ≼ y → y ≼ num.add x y
  pub add_mono : (x y u v : N) → nought ≼ x → nought ≼ u → x ≼ y → u ≼ v → num.add x u ≼ num.add y v
  pub mul_nonneg : (x y : N) → IsAmount x → IsAmount y → nought ≼ num.mul x y
  pub mul_rate : (x r : N) → IsAmount x → IsRate r → IsAmount (num.mul x r) × (num.mul x r ≼ x)
  pub mul_mono :
      (x y r : N) → IsAmount x → IsAmount y → IsRate r → x ≼ y → num.mul x r ≼ num.mul y r
  pub sub_amount :
      (x y : N) → IsAmount x → IsAmount y → y ≼ x → IsAmount (num.sub x y) × (num.sub x y ≼ x)
  pub mul_rate_mono :
      (x r s : N) → IsAmount x → IsRate r → IsRate s → r ≼ s → num.mul x r ≼ num.mul x s
  pub mul_comm : (x y : N) → num.mul x y ≡ num.mul y x
  pub div_rate :
      (m n : ℕ)
      → m ≤ n
      → 0 < n
      → num.decimal n 0 ≼ num.max_value
      → IsRate (num.div (num.decimal m 0) (num.decimal n 0))
  pub sub_le : (x y : N) → IsAmount x → nought ≼ y → num.sub x y ≼ x
  pub one_le_max : one ≼ num.max_value
  pub fifth : num.add (num.decimal 8 1) (num.decimal 2 1) ≡ one
  pub third : num.add (num.decimal 5 1) (num.decimal 3 1) ≡ num.decimal 8 1
  pub sub_mono :
      (x y z : N) → IsAmount x → IsAmount y → IsAmount z → y ≼ z → num.sub x z ≼ num.sub x y
  pub fixed_mono : (x y : N) → nought ≼ x → x ≼ y → num.to_fixed2 x ≼ num.to_fixed2 y
  pub not_lt : (x y : N) → x ≼ x → y ≼ y → num.lt x y ≡ false → y ≼ x
  pub lt_to_le : (x y : N) → num.lt x y ≡ true → x ≼ y
  pub lt_le : (x y : N) → num.lt x y ≡ true → num.le y x ≡ false
  pub add_one_pos : (x : N) → num.le x nought ≡ false → num.le (num.add x one) nought ≡ false
  pub one_pos : num.le one nought ≡ false

-- A concrete arithmetic that meets the laws: amounts in steps of 10⁻⁴, rounded down, without NaN.
abbrev step : ℕ
step = 10_000

abbrev tens : ℕ → ℕ
tens k = 10 ^ k

instance abbrev pub fixed_point : Number ℕ
fixed_point = record {
  decimal = λ m k. (m * step) / tens k;
  add = λ x y. x + y;
  sub = λ x y. x - y;
  mul = λ x y. x * y / step;
  div = λ x y. x * step / y;
  le = leb;
  lt = ltb;
  to_fixed2 = λ x. (x + 50) / 100 * 100;
  max_value = 1_000_000_000_000;
}

leb_intro : (a b : ℕ) → a ≤ b → leb a b ≡ true
leb_intro a b h = ground arith

tens-pos : (k : ℕ) → 0 < tens k
tens-pos zero = omega arith
tens-pos (suc k) = omega (arith, pow-suc 10 k, tens-pos k)

scaled_mono : (m k n j : ℕ) → m * tens j ≤ n * tens k → m * step / tens k ≤ n * step / tens j
scaled_mono m k n j h = (le-div_iff_mul-le (tens-pos j)).1 (
    le_of_mul-le-mul_right {k = tens k}
      (omega (
        arith,
        mul-le-mul_right (tens j) (mul-div-le (m * step) (tens k)),
        mul-le-mul_right step h,
      ))
      (tens-pos k))

mul_scaled-le : (x y r s : ℕ) → x ≤ y → r ≤ s → x * r / step ≤ y * s / step
mul_scaled-le x y r s h k = omega (arith, mul-le-mul h k)

mul_rate-le : (x r : ℕ) → r ≤ step → x * r / step ≤ x
mul_rate-le x r h = omega (arith, mul-le-mul_left x h)

scaled_ratio-le : (m n : ℕ) → m ≤ n → 0 < n → m * step / 1 * step / (n * step / 1) ≤ step
scaled_ratio-le m n h pos =
    div-le_of_le-mul (n * step / 1) (omega (arith, mul-le-mul_right (step * step) h))

pub fixed_point-IsRounding : IsRounding ℕ
fixed_point-IsRounding = record {
  le_refl = λ x h. leb_intro x x (omega arith);
  le_trans = λ x y z p q. ground arith;
  decimal_mono = λ m k n j h. leb_intro _ _ (scaled_mono m k n j h);
  add_nonneg = λ x y p q. ground arith;
  le_add = λ x y p q. ground arith;
  le_add_left = λ x y p q. ground arith;
  add_mono = λ x y u v p q h k. ground arith;
  mul_nonneg = λ x y p q. ground arith;
  mul_rate = λ x r p q. ground (arith, mul_rate-le x r);
  mul_mono = λ x y r p q s h. ground (arith, mul_scaled-le x y r r);
  mul_rate_mono = λ x r s p q t h. ground (arith, mul_scaled-le x x r s);
  sub_amount = λ x y p q h. ground arith;
  mul_comm = λ x y. ap (λ p. p / step) (Nat.mul_comm x y);
  div_rate = λ m n h pos fits. ground (arith, scaled_ratio-le m n h pos);
  sub_le = λ x y p q. ground arith;
  one_le_max = refl;
  fifth = refl;
  third = refl;
  sub_mono = λ x y z p q r h. ground arith;
  fixed_mono = λ x y p h. ground arith;
  not_lt = λ x y p q h. ground arith;
  lt_to_le = λ x y h. ground arith;
  lt_le = λ x y h. ground arith;
  add_one_pos = λ x h. ground arith;
  one_pos = refl;
}
