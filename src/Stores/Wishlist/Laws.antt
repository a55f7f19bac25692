-- ===== src/Stores/Wishlist/Laws.antt =====
-- What `toggleWishlist` does to the membership of every product.
use cloudscale_commerce.Prelude.{
  ◌≡◌, ◌≢◌, sym, Bool, false, not, ◌||◌, Bool-cases, inl, inr, if◌then◌else◌, List, [], ◌∷◌, foldl,
  ◌++◌, filter, All, All-append, All-filter, String, str_eq, eq_iff, arith,
}
use cloudscale_commerce.Stores.Wishlist.{
  Wishlist, contains, toggle_wishlist, is_wishlisted, clear_wishlist,
}

any-append :
    (q : String) (ids : Wishlist) (p : String)
    → contains (ids ++ p ∷ []) q ≡ (contains ids q || str_eq p q)
unfolding contains
any-append q [] p = ground arith
any-append q (x ∷ ids) p = ground (arith, any-append q ids p)

any-filter :
    (q p : String) (ids : Wishlist)
    → contains (filter (λ id. not (str_eq id p)) ids) q
      ≡ (if str_eq p q then false else contains ids q)
unfolding contains
any-filter q p [] = ground arith
any-filter q p (x ∷ ids) = ground (arith, any-filter q p ids, eq_iff x p, eq_iff x q, eq_iff p q)

-- `toggleWishlist` inverts the membership of its product and keeps that of every other one.
pub is_wishlisted-toggle_wishlist :
    (q p : String) (ids : Wishlist)
    → is_wishlisted q (toggle_wishlist p ids)
      ≡ (if str_eq p q then not (is_wishlisted q ids) else is_wishlisted q ids)
unfolding is_wishlisted toggle_wishlist
is_wishlisted-toggle_wishlist q p ids =
    ground (arith, any-append q ids p, any-filter q p ids, eq_iff p q)

-- No product is listed twice.
abbrev pub IsDistinct : Wishlist → Type 0
IsDistinct [] = Unit
IsDistinct (x ∷ ids) = All (λ y. y ≢ x) ids × IsDistinct ids

absent_of_contains : (p : String) (ids : Wishlist) → contains ids p ≡ false → All (λ y. y ≢ p) ids
unfolding contains
absent_of_contains p [] h = tt
absent_of_contains p (x ∷ ids) h = ground (arith, absent_of_contains p ids, eq_iff x p)

IsDistinct-append :
    (ids : Wishlist) (p : String)
    → IsDistinct ids
    → All (λ y. y ≢ p) ids
    → IsDistinct (ids ++ p ∷ [])
IsDistinct-append [] p d h = (tt, tt)
IsDistinct-append (x ∷ ids) p (dx, d) (hx, h) =
    (All-append (λ y. y ≢ x) ids (p ∷ []) dx ((λ e. hx (sym e)), tt), IsDistinct-append ids p d h)

IsDistinct-filter :
    (t : String → Bool) (ids : Wishlist) → IsDistinct ids → IsDistinct (filter t ids)
IsDistinct-filter t [] d = tt
IsDistinct-filter t (x ∷ ids) (dx, d) =
    ground (arith, IsDistinct-filter t ids d, All-filter (λ y. y ≢ x) t ids dx)

toggle_wishlist-IsDistinct :
    (p : String) (ids : Wishlist) → IsDistinct ids → IsDistinct (toggle_wishlist p ids)
unfolding toggle_wishlist
toggle_wishlist-IsDistinct p ids d = elim (Bool-cases (contains ids p)) [
  | inl old ↦ rw old (IsDistinct-filter (λ id. not (str_eq id p)) ids d)
  | inr fresh ↦ rw fresh (IsDistinct-append ids p d (absent_of_contains p ids fresh))
]

pub data Action : Type 0 where
  toggle : String → Action
  clear : Action

pub step : Wishlist → Action → Wishlist
step ids (toggle p) = toggle_wishlist p ids
step ids clear = clear_wishlist ids

foldl-IsDistinct :
    (ids : Wishlist) (calls : List Action) → IsDistinct ids → IsDistinct (foldl step ids calls)
unfolding step clear_wishlist
foldl-IsDistinct ids [] d = d
foldl-IsDistinct ids (toggle p ∷ calls) d =
    foldl-IsDistinct (toggle_wishlist p ids) calls (toggle_wishlist-IsDistinct p ids d)
foldl-IsDistinct ids (clear ∷ calls) d = foldl-IsDistinct [] calls tt

-- After any calls on an empty wishlist no product is listed twice.
pub run-IsDistinct : (calls : List Action) → IsDistinct (foldl step [] calls)
run-IsDistinct calls = foldl-IsDistinct [] calls tt
