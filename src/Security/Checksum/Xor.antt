-- ===== src/Security/Checksum/Xor.antt =====
-- Laws of `bit_xor`, from the recursion on binary digits that it stands for.
use native.Mathlib.Nat.{pow-suc}
use Prim.Native.Nat.{bit_xor, bit_xor-bitwise, digits, differ}
use cloudscale_commerce.Prelude.{ℕ, zero, suc, ◌+◌, ◌*◌, ◌/◌, ◌%◌, ◌^◌, ◌≤◌, ◌<◌, ◌≡◌, refl, arith}

module _ (f : ℕ → ℕ → ℕ) where
  abbrev xor_digits : ℕ → ℕ → ℕ → ℕ
  xor_digits = digits (λ b. b) f

  xor_digits_fuel : (n m a b : ℕ) → a ≤ n → a ≤ m → xor_digits n a b ≡ xor_digits m a b
  xor_digits_fuel zero zero a b p q = refl
  xor_digits_fuel zero (suc m) zero b p q = refl
  xor_digits_fuel zero (suc m) (suc a) b p q = absurd (omega arith)
  xor_digits_fuel (suc n) zero zero b p q = refl
  xor_digits_fuel (suc n) zero (suc a) b p q = absurd (omega arith)
  xor_digits_fuel (suc n) (suc m) zero b p q = refl
  xor_digits_fuel (suc n) (suc m) (suc a) b p q =
      omega (arith, xor_digits_fuel n m (suc a / 2) (b / 2) (omega arith) (omega arith))

zero-bit_xor : (b : ℕ) → bit_xor 0 b ≡ b
zero-bit_xor b = bit_xor-bitwise 0 b

bit_xor_step : (a b : ℕ) → bit_xor a b ≡ bit_xor (a / 2) (b / 2) * 2 + differ (a % 2) (b % 2)
bit_xor_step zero b = omega (arith, zero-bit_xor b, zero-bit_xor (b / 2))
bit_xor_step (suc a) b = omega (
  arith,
  bit_xor-bitwise (suc a) b,
  bit_xor-bitwise (suc a / 2) (b / 2),
  xor_digits_fuel differ a (suc a / 2) (suc a / 2) (b / 2) (omega arith) (omega arith),
)

-- On two digits.
differ-eq : (x y : ℕ) → x < 2 → y < 2 → differ x y ≡ (x + y) % 2
differ-eq zero zero p q = refl
differ-eq zero (suc zero) p q = refl
differ-eq (suc zero) zero p q = refl
differ-eq (suc zero) (suc zero) p q = refl
differ-eq zero (suc (suc y)) p q = absurd (omega arith)
differ-eq (suc zero) (suc (suc y)) p q = absurd (omega arith)
differ-eq (suc (suc x)) y p q = absurd (omega arith)

-- The recursion in arithmetic alone.
bit_xor_parity : (a b : ℕ) → bit_xor a b ≡ bit_xor (a / 2) (b / 2) * 2 + (a % 2 + b % 2) % 2
bit_xor_parity a b =
    omega (arith, bit_xor_step a b, differ-eq (a % 2) (b % 2) (omega arith) (omega arith))

cancel_right_fuel : (n x y c : ℕ) → x ≤ n → y ≤ n → bit_xor x c ≡ bit_xor y c → x ≡ y
cancel_right_fuel zero x y c p q e = omega arith
cancel_right_fuel (suc n) x y c p q e =
    let halves : x / 2 ≡ y / 2 =
      cancel_right_fuel n (x / 2) (y / 2) (c / 2) (omega arith) (omega arith)
        (omega (arith, bit_xor_parity x c, bit_xor_parity y c)) in
    omega (arith, bit_xor_parity x c, bit_xor_parity y c, halves)

pub bit_xor_cancel_right : (x y c : ℕ) → bit_xor x c ≡ bit_xor y c → x ≡ y
bit_xor_cancel_right x y c e = cancel_right_fuel (x + y) x y c (omega arith) (omega arith) e

cancel_left_fuel : (n c d x : ℕ) → c ≤ n → d ≤ n → bit_xor x c ≡ bit_xor x d → c ≡ d
cancel_left_fuel zero c d x p q e = omega arith
cancel_left_fuel (suc n) c d x p q e =
    let halves : c / 2 ≡ d / 2 =
      cancel_left_fuel n (c / 2) (d / 2) (x / 2) (omega arith) (omega arith)
        (omega (arith, bit_xor_parity x c, bit_xor_parity x d)) in
    omega (arith, bit_xor_parity x c, bit_xor_parity x d, halves)

pub bit_xor_cancel_left : (x c d : ℕ) → bit_xor x c ≡ bit_xor x d → c ≡ d
bit_xor_cancel_left x c d e = cancel_left_fuel (c + d) c d x (omega arith) (omega arith) e

pub bit_xor-lt : (k a b : ℕ) → a < 2 ^ k → b < 2 ^ k → bit_xor a b < 2 ^ k
bit_xor-lt zero a b p q =
    let none_left : a ≡ 0 = omega arith in rw none_left (omega (arith, zero-bit_xor b))
bit_xor-lt (suc k) a b p q = omega (
  arith,
  pow-suc 2 k,
  bit_xor_parity a b,
  bit_xor-lt k (a / 2) (b / 2) (omega (arith, pow-suc 2 k)) (omega (arith, pow-suc 2 k)),
)

-- 33 is odd, so the product with it loses nothing modulo 2³².
pub mul_33_cancel :
    (x y : ℕ)
    → x < 4_294_967_296
    → y < 4_294_967_296
    → x * 33 % 4_294_967_296 ≡ y * 33 % 4_294_967_296
    → x ≡ y
mul_33_cancel x y p q e = omega arith
