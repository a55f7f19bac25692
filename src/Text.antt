-- ===== src/Text.antt =====
-- JavaScript strings as lists of UTF-16 code units, with the methods that the source uses on them:
-- `===`, `trim`, `includes`, `slice` and literals. The case mappings stay parameters of their users.
pub mod Equality
pub mod Trim
use Prim.Native.Char.{code}
use cloudscale_commerce.Prelude.{
  ℕ, zero, suc, Bool, true, false, if◌then◌else◌, ◌&&◌, ◌||◌, List, [], ◌∷◌, reverse, String, ltb,
  leb, ◌==◌,
}

abbrev pub Text : Type 0
Text = List ℕ

-- A literal of the source, in ASCII.
abbrev pub literal : String → Text
literal String.[] = []
literal (String.◌∷◌ c s) = code c ∷ literal s

unfoldable pub text_eq : Text → Text → Bool
text_eq [] [] = true
text_eq (c ∷ s) (d ∷ t) = c == d && text_eq s t
text_eq _ _ = false

-- WhiteSpace and LineTerminator of ECMAScript.
unfoldable pub is_space : ℕ → Bool
is_space c =
    (leb 9 c && leb c 13)
    || c == 32
    || c == 160
    || c == 0x1680
    || (leb 0x2000 c && leb c 0x200a)
    || c == 0x2028
    || c == 0x2029
    || c == 0x202f
    || c == 0x205f
    || c == 0x3000
    || c == 0xfeff

trim_start : Text → Text
trim_start [] = []
trim_start (c ∷ s) = let rest = trim_start s in if is_space c then rest else c ∷ s

unfoldable pub trim : Text → Text
unfolding trim_start is_space
trim s = reverse (trim_start (reverse (trim_start s)))

unfoldable pub starts_with : Text → Text → Bool
starts_with s [] = true
starts_with [] (c ∷ q) = false
starts_with (d ∷ s) (c ∷ q) = d == c && starts_with s q

-- `s.includes(q)`
unfoldable pub includes : Text → Text → Bool
unfolding starts_with
includes [] q = starts_with [] q
includes (d ∷ s) q = starts_with (d ∷ s) q || includes s q
