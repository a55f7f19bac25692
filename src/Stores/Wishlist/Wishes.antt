-- ===== src/Stores/Wishlist/Wishes.antt =====
-- The wishlist without the order of its ids: what `isWishlisted` tells of it, and nothing else.
use mathlib.Core.Quot
use mathlib.Core.Quot.{Quot, Quot-set}
use cloudscale_commerce.Prelude.{
  ◌≡◌, refl, Bool, false, not, if◌then◌else◌, List, [], ◌∷◌, foldl, String, str_eq, arith,
}
use cloudscale_commerce.Stores.Wishlist.{Wishlist, toggle_wishlist, is_wishlisted}
use cloudscale_commerce.Stores.Wishlist.Laws.{is_wishlisted-toggle_wishlist}

-- The two lists answer alike for every product.
abbrev pub SameWishes : Wishlist → Wishlist → Type 0
SameWishes ids others = (q : String) → is_wishlisted q ids ≡ is_wishlisted q others

abbrev pub Wishes : Type 0
Wishes = Quot SameWishes

abbrev pub of_list : Wishlist → Wishes
of_list = Quot.mk

pub holds : String → Wishes → Bool
holds q = Quot.lift (hlevel) (is_wishlisted q) (λ ids others h. h q)

SameWishes-toggle_wishlist :
    (p : String) (ids others : Wishlist)
    → SameWishes ids others
    → SameWishes (toggle_wishlist p ids) (toggle_wishlist p others)
SameWishes-toggle_wishlist p ids others h q =
    rw (is_wishlisted-toggle_wishlist q p ids, is_wishlisted-toggle_wishlist q p others, h q) refl

-- `toggleWishlist` on what the list stands for.
pub toggled : String → Wishes → Wishes
toggled p =
    Quot.lift Quot-set (λ ids. of_list (toggle_wishlist p ids))
      (λ ids others h. Quot.sound (SameWishes-toggle_wishlist p ids others h))

pub ext : (x y : Wishes) → ((q : String) → holds q x ≡ holds q y) → x ≡ y
unfolding holds
ext =
    Quot.ind (λ _. hlevel Quot-set) (λ ids. Quot.ind (λ _. hlevel Quot-set) (λ others. Quot.sound))

holds-toggled :
    (q p : String) (x : Wishes)
    → holds q (toggled p x) ≡ (if str_eq p q then not (holds q x) else holds q x)
unfolding holds toggled
holds-toggled q p = Quot.ind (λ _. hlevel) (is_wishlisted-toggle_wishlist q p)

-- Whether the product is toggled an odd number of times.
abbrev pub is_odd : String → List String → Bool
is_odd q [] = false
is_odd q (p ∷ toggles) = if str_eq p q then not (is_odd q toggles) else is_odd q toggles

-- The calls of `toggleWishlist`, one after the other.
abbrev pub toggle_all : List String → Wishlist → Wishlist
toggle_all toggles ids = foldl (λ ids p. toggle_wishlist p ids) ids toggles

is_wishlisted-toggle_all :
    (q : String) (toggles : List String) (ids : Wishlist)
    → is_wishlisted q (toggle_all toggles ids)
      ≡ (if is_odd q toggles then not (is_wishlisted q ids) else is_wishlisted q ids)
is_wishlisted-toggle_all q [] ids = refl
is_wishlisted-toggle_all q (p ∷ toggles) ids = ground (
  arith,
  is_wishlisted-toggle_all q toggles (toggle_wishlist p ids),
  is_wishlisted-toggle_wishlist q p ids,
)

-- Two series of toggles on the same wishlist, in whatever order, by which every product is toggled an
-- odd number of times or by which it is not alike: they leave the same wishes.
pub of_list-toggle_all :
    (these those : List String) (ids : Wishlist)
    → ((q : String) → is_odd q these ≡ is_odd q those)
    → of_list (toggle_all these ids) ≡ of_list (toggle_all those ids)
of_list-toggle_all these those ids same = Quot.sound λ q.
    rw (is_wishlisted-toggle_all q these ids, is_wishlisted-toggle_all q those ids, same q) refl

-- A toggle of the list is the toggle of its wishes; on the wishes a toggle twice is none, and the order
-- of two toggles is of no matter.
pub toggled_lem :
    (p q : String) (ids : Wishlist) (x : Wishes)
    → (toggled p (of_list ids) ≡ of_list (toggle_wishlist p ids))
      × (toggled p (toggled p x) ≡ x)
      × (toggled p (toggled q x) ≡ toggled q (toggled p x))
unfolding toggled
toggled_lem p q ids x = (
  refl,
  ext (toggled p (toggled p x)) x
      (λ r. ground (arith, holds-toggled r p (toggled p x), holds-toggled r p x)),
  ext (toggled p (toggled q x)) (toggled q (toggled p x)) (λ r. ground (
    arith,
    holds-toggled r p (toggled q x),
    holds-toggled r q x,
    holds-toggled r q (toggled p x),
    holds-toggled r p x,
  )),
)
