-- ===== src/Security/Escape.antt =====
-- `sanitizeHTML` of frontend/src/lib/security.ts, over UTF-16 code units.
use mathlib.Core.List.{append_assoc}
use cloudscale_commerce.Prelude.{
  ℕ, ◌≡◌, ◌≢◌, refl, Bool-cases, inl, inr, if◌then◌else◌, [], ◌∷◌, ◌++◌, All, All-append, arith,
  ◌==◌,
}
use cloudscale_commerce.Text.{Text, literal}

-- `str.replace(/c/g, by)`, for a pattern of one unit.
replace_all : ℕ → Text → Text → Text
replace_all c by [] = []
replace_all c by (x ∷ s) = let rest = replace_all c by s in if x == c then by ++ rest else x ∷ rest

pub sanitize_html : Text → Text
sanitize_html str = replace_all b'/' (literal "&#x2F;") (
    replace_all 39 (literal "&#x27;") (
      replace_all 34 (literal "&quot;") (
        replace_all b'>' (literal "&gt;")
          (replace_all b'<' (literal "&lt;") (replace_all b'&' (literal "&amp;") str)))))

-- One pass over the text.
unfoldable pub escape_unit : ℕ → Text
escape_unit c =
    if c == b'&'
    then literal "&amp;"
    else if c == b'<'
    then literal "&lt;"
    else if c == b'>'
    then literal "&gt;"
    else if c == 34
    then literal "&quot;"
    else if c == 39
    then literal "&#x27;"
    else if c == b'/'
    then literal "&#x2F;"
    else c ∷ []

unfoldable pub escape : Text → Text
escape [] = []
escape (c ∷ s) = escape_unit c ++ escape s

replace_all-append :
    (c : ℕ) (by s t : Text) → replace_all c by (s ++ t) ≡ replace_all c by s ++ replace_all c by t
unfolding replace_all
replace_all-append c by [] t = refl
replace_all-append c by (x ∷ s) t = elim (Bool-cases (x == c)) [
  | inl hit ↦ rw (hit, replace_all-append c by s t, append_assoc)
  | inr other ↦ rw (other, replace_all-append c by s t)
]

-- The six passes on a text of one unit.
sanitize_html-unit : (c : ℕ) → sanitize_html (c ∷ []) ≡ escape_unit c
unfolding sanitize_html replace_all escape_unit
sanitize_html-unit c = elim (Bool-cases (c == b'&')) [
  | inl hit ↦ rw hit refl
  | inr miss0 ↦ rw miss0 (elim (Bool-cases (c == b'<')) [
    | inl hit ↦ rw hit refl
    | inr miss1 ↦ rw miss1 (elim (Bool-cases (c == b'>')) [
      | inl hit ↦ rw hit refl
      | inr miss2 ↦ rw miss2 (elim (Bool-cases (c == 34)) [
        | inl hit ↦ rw hit refl
        | inr miss3 ↦ rw miss3 (elim (Bool-cases (c == 39)) [
          | inl hit ↦ rw hit refl
          | inr miss4 ↦ rw miss4 (elim (Bool-cases (c == b'/')) [
            | inl hit ↦ rw hit refl
            | inr miss5 ↦ rw miss5 (refl)
          ])
        ])
      ])
    ])
  ])
]

sanitize_html-append : (s t : Text) → sanitize_html (s ++ t) ≡ sanitize_html s ++ sanitize_html t
unfolding sanitize_html
sanitize_html-append s t = simp replace_all-append

-- The six passes in their order replace each unit once: no entity that a pass has written is
-- escaped by a later one.
pub sanitize_html-escape : (s : Text) → sanitize_html s ≡ escape s
unfolding escape
sanitize_html-escape [] = unfold sanitize_html replace_all in refl
sanitize_html-escape (c ∷ s) =
    rw (sanitize_html-append (c ∷ []) s, sanitize_html-unit c, sanitize_html-escape s)

-- A unit that can neither open nor close a tag, an attribute or a path.
abbrev pub IsInert : ℕ → Type 0
IsInert c = (c ≢ b'<') × (c ≢ b'>') × (c ≢ 34) × (c ≢ 39) × (c ≢ b'/')

escape_unit-IsInert : (c : ℕ) → All IsInert (escape_unit c)
unfolding escape_unit
escape_unit-IsInert c = ground arith

escape-IsInert : (s : Text) → All IsInert (escape s)
unfolding escape
escape-IsInert [] = tt
escape-IsInert (c ∷ s) =
    All-append IsInert (escape_unit c) (escape s) (escape_unit-IsInert c) (escape-IsInert s)

-- No text that is sanitized holds an angle bracket, a quote or a slash.
pub sanitize_html-IsInert : (s : Text) → All IsInert (sanitize_html s)
sanitize_html-IsInert s = rw (sanitize_html-escape s) (escape-IsInert s)
