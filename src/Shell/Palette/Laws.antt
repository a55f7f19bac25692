-- ===== src/Shell/Palette/Laws.antt =====
-- The highlight stays on the list, and what the palette opens is a page.
use mathlib.Core.Path.{subst}
use native.Mathlib.Nat.{mod-eq_of_lt, mod-lt, mod_self, add-mod_right}
use cloudscale_commerce.Prelude.{
  ℕ, zero, suc, ◌+◌, ◌-◌, ◌%◌, ◌≡◌, ◌<◌, ap, sym, ◌∙◌, ltb, ltb→lt, true, false, Bool-cases, inl,
  inr, none, some, List, [], ◌∷◌, length, get_elem?, All, String, ◌==◌, arith,
}
use cloudscale_commerce.Number.{Number}
use cloudscale_commerce.Text.{Text, text_eq}
use cloudscale_commerce.Fuzzy.{FuzzySearchResult}
use cloudscale_commerce.Api.Auth.{AuthState}
use cloudscale_commerce.Shell.Routes.{Page, visit}
use cloudscale_commerce.Shell.Routes.Laws.{IsShown, show-protected}
use cloudscale_commerce.Fuzzy.Items.{fuzzy_search-All}
use cloudscale_commerce.Shell.Palette.{
  CommandItem, commands, Palette, Key, arrow_down, arrow_up, enter, other, filtered_commands,
  choose, choose_active, pressed, handle_key_down,
}

-- One down and one up, on a list of `n`.
down_up : (i n : ℕ) → i < n → ((i + 1) % n + n - 1) % n ≡ i
down_up i n h = elim (Bool-cases (ltb (i + 1) n)) [
  | inl inside ↦
      let stays : (i + 1) % n ≡ i + 1 = mod-eq_of_lt (ltb→lt _ _ inside) in
      let whole : i + 1 + n - 1 ≡ i + n = omega arith in
      ap (λ k. (k + n - 1) % n) stays ∙ ap (λ k. k % n) whole ∙ add-mod_right i n ∙ mod-eq_of_lt h
  | inr last ↦
      let end : n ≡ i + 1 = ground arith in
      let wraps : (i + 1) % n ≡ 0 = ap (λ k. k % n) (sym end) ∙ mod_self n in
      let whole : 0 + n - 1 ≡ i = omega (arith, end) in
      ap (λ k. (k + n - 1) % n) wraps ∙ ap (λ k. k % n) whole ∙ mod-eq_of_lt h
]

module _ (to_lower : Text → Text) (N : Type 0) ⦃num : Number N⦄ where
  -- From a highlight on the list the arrows lead to a highlight on the list, and the arrow up takes
  -- back what the arrow down did.
  pub handle_key_down-arrows :
      (s : Palette)
      → s.active_index < length (filtered_commands to_lower N s.query)
      → let found = filtered_commands to_lower N s.query in
        let down = (handle_key_down to_lower N arrow_down s).0 in
        let up = (handle_key_down to_lower N arrow_up s).0 in
        (down.active_index < length found)
        × (up.active_index < length found)
        × ((handle_key_down to_lower N arrow_up down).0 ≡ s)
  unfolding handle_key_down pressed
  handle_key_down-arrows s h =
      let found = filtered_commands to_lower N s.query in
      let some_found : (length found == 0) ≡ false = ground arith in
      rw some_found (
        mod-lt _ (omega (arith, h)),
        mod-lt _ (omega (arith, h)),
        rw some_found
            (ap (λ i. record s { active_index = i }) (down_up s.active_index (length found) h)),
      )

  offered-All :
      (P : CommandItem → Type 0) (query : Text)
      → All P commands
      → All (λ r. P r.item) (filtered_commands to_lower N query)
  unfolding filtered_commands
  offered-All P query h = elim (Bool-cases (text_eq query [])) [
    | inl nothing ↦ rw nothing (h.0, h.1)
    | inr asked ↦
        rw asked (
          fuzzy_search-All N P to_lower commands query (λ cmd. cmd.name ∷ cmd.category ∷ []) asked
            h)
  ]

  chosen-All :
      (P : CommandItem → Type 0) (found : List (FuzzySearchResult CommandItem N)) (i : ℕ)
      (s : Palette) (path : String)
      → All (λ r. P r.item) found
      → (choose_active to_lower (get_elem? found i) s).1 ≡ some path
      → (item : CommandItem) × (item.path ≡ path) × P item
  unfolding choose_active choose
  chosen-All P [] i s path h e = cc
  chosen-All P (r ∷ found) zero s path (p, h) e = (r.item, cc, p)
  chosen-All P (r ∷ found) (suc i) s path (p, h) e = chosen-All P found i s path h e

  commands-IsShown :
      (auth : AuthState)
      → auth.is_authenticated ≡ true
      → All (λ item. IsShown auth item.path) commands
  unfolding visit
  commands-IsShown auth on = (
    (Page.catalog, show-protected auth _ on, λ e. cc),
    (
      (Page.checkout, show-protected auth _ on, λ e. cc),
      (
        (Page.orders, show-protected auth _ on, λ e. cc),
        (
          (Page.inventory, show-protected auth _ on, λ e. cc),
          (
            (Page.users, show-protected auth _ on, λ e. cc),
            ((Page.admin_dashboard, show-protected auth _ on, λ e. cc), tt),
          ),
        ),
      ),
    ),
  )

  pressed-IsShown :
      (auth : AuthState) (key : Key) (found : List (FuzzySearchResult CommandItem N)) (s : Palette)
      (path : String)
      → All (λ r. IsShown auth r.item.path) found
      → (pressed to_lower key found s).1 ≡ some path
      → IsShown auth path
  unfolding pressed
  pressed-IsShown auth arrow_down found s path h e = cc
  pressed-IsShown auth arrow_up found s path h e = cc
  pressed-IsShown auth enter found s path h e =
      let (item, same, shown) =
        chosen-All (λ item. IsShown auth item.path) found s.active_index s path h e in
      subst (IsShown auth) same shown
  pressed-IsShown auth other found s path h e = cc

  -- Whatever is typed and whichever key is pressed, a path that the palette opens shows a signed-in
  -- user a page that is there.
  pub handle_key_down-IsShown :
      (auth : AuthState) (key : Key) (s : Palette) (path : String)
      → auth.is_authenticated ≡ true
      → (handle_key_down to_lower N key s).1 ≡ some path
      → IsShown auth path
  unfolding handle_key_down pressed
  handle_key_down-IsShown auth key s path on e =
      let found = filtered_commands to_lower N s.query in
      elim (Bool-cases (length found == 0)) [
        | inl nothing ↦ let wrong : none ≡ some path = rw nothing at e in cc
        | inr offered ↦
            pressed-IsShown auth key found s path
              (offered-All (λ item. IsShown auth item.path) s.query (commands-IsShown auth on))
              (rw offered at e)
      ]
