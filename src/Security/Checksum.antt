-- ===== src/Security/Checksum.antt =====
-- `computeHash` of frontend/src/lib/security.ts. The running `hash` of the source is a signed 32-bit
-- integer after the first `^`; here it is the number from 0 to 2³² - 1 with the same bits, which
-- `>>> 0` makes of it at the end. `hash * 33` is exact, as it stays below 2⁵³.
mod Xor
pub mod Hex
pub mod Detects
use Prim.Native.Nat.{bit_xor}
use cloudscale_commerce.Prelude.{
  ℕ, zero, suc, ◌+◌, ◌*◌, ◌/◌, ◌%◌, ◌^◌, if◌then◌else◌, ltb, List, [], ◌∷◌, ◌==◌,
}
use cloudscale_commerce.Text.{Text}

abbrev pub word : ℕ
word = 4_294_967_296

hash_unit : ℕ → ℕ → ℕ
hash_unit hash c = bit_xor (hash * 33 % word) c

hash_from : ℕ → Text → ℕ
hash_from hash [] = hash
hash_from hash (c ∷ s) = hash_from (hash_unit hash c) s

-- `toString(16)`: the last `fuel` digits, in front of those that are done.
hex_digit : ℕ → ℕ
hex_digit d = if ltb d 10 then d + b'0' else d + 87

hex_from : (fuel n : ℕ) → Text → Text
hex_from zero n done = done
hex_from (suc fuel) n done =
    let rest = hex_from fuel (n / 16) (hex_digit (n % 16) ∷ done) in if n == 0 then done else rest

pub to_hex : ℕ → Text
to_hex n = if n == 0 then b'0' ∷ [] else hex_from 8 n []

unfoldable pub compute_hash : Text → Text
unfolding hash_unit hash_from hex_digit hex_from to_hex
compute_hash str = to_hex (hash_from 5381 str)
