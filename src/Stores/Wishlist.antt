-- ===== src/Stores/Wishlist.antt =====
-- frontend/src/stores/wishlistStore.ts: the ids of the wished products, in the order of addition.
pub mod Laws
pub mod Wishes
use cloudscale_commerce.Prelude.{
  Bool, not, if◌then◌else◌, List, [], ◌∷◌, ◌++◌, filter, any, String, str_eq,
}

-- The state is `itemIds`.
abbrev pub Wishlist : Type 0
Wishlist = List String

-- `current.includes(id)`
contains : Wishlist → String → Bool
contains ids id = any (λ x. str_eq x id) ids

pub toggle_wishlist : String → Wishlist → Wishlist
toggle_wishlist product_id current =
    if contains current product_id
    then filter (λ id. not (str_eq id product_id)) current
    else current ++ product_id ∷ []

pub is_wishlisted : String → Wishlist → Bool
is_wishlisted product_id ids = contains ids product_id

pub clear_wishlist : Wishlist → Wishlist
clear_wishlist ids = []
