-- ===== src/Pages/Catalog/Laws.antt =====
-- What the catalog shows, and what it says of the wishlist.
use mathlib.Core.List.{Perm}
use mathlib.Core.List.Perm
use cloudscale_commerce.Prelude.{
  ◌≡◌, ◌↔◌, refl, sym, ap, ◌∙◌, Bool, true, false, not, ◌&&◌, ◌||◌, Bool-cases, inl, inr,
  if◌then◌else◌, Option, none, some, any, List, [], ◌∷◌, filter, All, All-filter, String, str_eq,
  eq_refl, arith,
}
use cloudscale_commerce.Number.{Number, IsRounding, ◌≼◌, IsAmount}
use cloudscale_commerce.Text.{Text, text_eq, literal, includes}
use cloudscale_commerce.Sort.{Sign, sort, is_plus, IsOrdered, Decides, sort-Perm, sort-IsOrdered}
use cloudscale_commerce.Stores.Wishlist.{Wishlist, toggle_wishlist, is_wishlisted}
use cloudscale_commerce.Stores.Wishlist.Laws.{is_wishlisted-toggle_wishlist}
use cloudscale_commerce.Pages.Catalog.{
  Product, Filters, SortBy, default, price_asc, price_desc, by_name, is_found, is_in, by_price,
  comparison, sorted_by, processed_products, handle_toggle_wishlist,
}

-- The toast says "Removed from Wishlist" exactly when the product was not on the list before the
-- click, so when the click has put it there.
pub handle_toggle_wishlist-title :
    (product_id : String) (ids : Wishlist)
    → let (after, toast) = handle_toggle_wishlist product_id ids in
      ((toast.title ≡ "Removed from Wishlist") ↔ (is_wishlisted product_id ids ≡ false))
      × (is_wishlisted product_id after ≡ not (is_wishlisted product_id ids))
unfolding handle_toggle_wishlist
handle_toggle_wishlist-title product_id ids =
    let law = is_wishlisted-toggle_wishlist product_id product_id ids in
    let toggled : is_wishlisted product_id (toggle_wishlist product_id ids)
        ≡ not (is_wishlisted product_id ids) =
      rw (eq_refl product_id) at law in
    rw toggled (elim (Bool-cases (is_wishlisted product_id ids)) [
      | inl on ↦ rw on ((λ e. cc, λ e. cc), refl)
      | inr off ↦ rw off ((λ e. refl, λ e. refl), refl)
    ])

module _ {A : Type 0} where
  filter-filter :
      (p q : A → Bool) (xs : List A) → filter p (filter q xs) ≡ filter (λ x. q x && p x) xs
  filter-filter p q [] = refl
  filter-filter p q (x ∷ xs) = ground (arith, filter-filter p q xs)

  filter_whole : (xs : List A) → filter (λ x. true) xs ≡ xs
  filter_whole [] = refl
  filter_whole (x ∷ xs) = ap (λ r. x ∷ r) (filter_whole xs)

  filter_if :
      (off : Bool) (q : A → Bool) (xs : List A)
      → (if off then xs else filter q xs) ≡ filter (λ x. off || q x) xs
  filter_if true q xs = sym (filter_whole xs)
  filter_if false q xs = refl

  -- Two filters that may be off, and one that is on.
  filter_three :
      (a b : Bool) (p q r : A → Bool) (xs : List A)
      → filter r
          (if b then if a then xs else filter p xs else filter q (if a then xs else filter p xs))
        ≡ filter (λ x. ((a || p x) && (b || q x)) && r x) xs
  filter_three a b p q r xs =
      ap (filter r) (filter_if b q (if a then xs else filter p xs))
      ∙ ap (λ ys. filter r (filter (λ x. b || q x) ys)) (filter_if a p xs)
      ∙ ap (filter r) (filter-filter (λ x. b || q x) (λ x. a || p x) xs)
      ∙ filter-filter r (λ x. (a || p x) && (b || q x)) xs

module _ {N : Type 0} ⦃num : Number N⦄ where
  abbrev pub ByPrice : Product N → Product N → Type 0
  ByPrice a b = a.price ≼ b.price

  abbrev pub IsPriced : Product N → Type 0
  IsPriced p = IsAmount p.price

  not-lt_of_by_price : (a b : N) → is_plus (by_price a b) ≡ false → num.lt b a ≡ false
  unfolding by_price is_plus
  not-lt_of_by_price a b h = elim (Bool-cases (num.lt b a)) [
    | inl less ↦ let wrong : true ≡ false = rw less at h in cc
    | inr fine ↦ fine
  ]

  lt_of_by_price : (a b : N) → is_plus (by_price a b) ≡ true → num.lt b a ≡ true
  unfolding by_price is_plus
  lt_of_by_price a b h = ground arith

  module _ (laws : IsRounding N) where
    open laws use {le_refl, le_trans, not_lt, lt_to_le}

    le_of_by_price : (a b : N) → IsAmount a → IsAmount b → is_plus (by_price a b) ≡ false → a ≼ b
    le_of_by_price a b p q h = not_lt b a (le_refl b q.0) (le_refl a p.0) (not-lt_of_by_price a b h)

    price_asc-Decides :
        (to_lower : Text → Text) (compare : String → String → Sign)
        → Decides IsPriced ByPrice (comparison to_lower compare price_asc)
    unfolding comparison
    price_asc-Decides to_lower compare = record {
      behind = λ a b p q h. lt_to_le b.price a.price (lt_of_by_price a.price b.price h);
      before = λ a b p q h. le_of_by_price a.price b.price p q h;
      trans = λ a b c h k. le_trans a.price b.price c.price h k;
    }

    price_desc-Decides :
        (to_lower : Text → Text) (compare : String → String → Sign)
        → Decides IsPriced (λ a b. ByPrice b a) (comparison to_lower compare price_desc)
    unfolding comparison
    price_desc-Decides to_lower compare = record {
      behind = λ a b p q h. lt_to_le a.price b.price (lt_of_by_price b.price a.price h);
      before = λ a b p q h. le_of_by_price b.price a.price q p h;
      trans = λ a b c h k. le_trans c.price b.price a.price k h;
    }

    module _ (to_lower : Text → Text) (compare : String → String → Sign) where
      -- The name, the article number or the description holds the search, both in lower case.
      abbrev mentions : (search : Text) → List String → Bool
      mentions search texts = any (λ t. includes (to_lower (literal t)) (to_lower search)) texts

      abbrev is_of : (category : String) → Option String → Bool
      is_of category none = false
      is_of category (some c) = str_eq c category

      -- The three filters, each of them as it is set: an empty search and the category "All" are off.
      abbrev pub is_wanted : Filters N → Product N → Bool
      is_wanted f p =
          ((text_eq f.search [] || mentions f.search (p.name ∷ p.sku ∷ p.description ∷ []))
            && (str_eq f.selected_category "All" || is_of f.selected_category p.category))
          && num.le p.price f.max_price

      mentions-is_found :
          (search : Text) (p : Product N)
          → is_found to_lower compare search p
            ≡ mentions search (p.name ∷ p.sku ∷ p.description ∷ [])
      unfolding is_found
      mentions-is_found search p = ground arith

      is_of-is_in :
          (category : String) (p : Product N) → is_in category p ≡ is_of category p.category
      unfolding is_in
      is_of-is_in category p =
          elim p.category
            as (λ c. (elim c [ none ↦ false | some d ↦ str_eq d category ]) ≡ is_of category c) [
              | none ↦ refl
              | some c ↦ refl
            ]

      filter-is_wanted :
          (f : Filters N) (products : List (Product N))
          → filter
              (λ p.
                ((text_eq f.search [] || is_found to_lower compare f.search p)
                  && (str_eq f.selected_category "All" || is_in f.selected_category p))
                && num.le p.price f.max_price)
              products
            ≡ filter (is_wanted f) products
      filter-is_wanted f products =
          ap (λ keep. filter keep products)
            (λ i p.
              ((text_eq f.search [] || mentions-is_found f.search p i)
                && (str_eq f.selected_category "All" || is_of-is_in f.selected_category p i))
              && num.le p.price f.max_price)

      -- The order that is chosen, by the prices where it is one of those.
      abbrev pub Arranges : SortBy → (wanted shown : List (Product N)) → Type 0
      Arranges default wanted shown = shown ≡ wanted
      Arranges price_asc wanted shown = IsOrdered ByPrice shown
      Arranges price_desc wanted shown = IsOrdered (λ a b. ByPrice b a) shown
      Arranges by_name wanted shown = shown ≡ sort (λ a b. compare a.name b.name) wanted

      sorted_by-Arranges :
          (order : SortBy) (wanted : List (Product N))
          → All IsPriced wanted
          → Perm (sorted_by to_lower compare order wanted) wanted
            × Arranges order wanted (sorted_by to_lower compare order wanted)
      unfolding sorted_by comparison
      sorted_by-Arranges default wanted h = (Perm.refl wanted, refl)
      sorted_by-Arranges price_asc wanted h = (
        sort-Perm _ wanted,
        sort-IsOrdered IsPriced ByPrice _ (price_asc-Decides to_lower compare) wanted h,
      )
      sorted_by-Arranges price_desc wanted h = (
        sort-Perm _ wanted,
        sort-IsOrdered IsPriced (λ a b. ByPrice b a) _ (price_desc-Decides to_lower compare) wanted
            h,
      )
      sorted_by-Arranges by_name wanted h = (sort-Perm _ wanted, refl)

      -- The price of every product that was loaded is an amount. The catalog shows just the products
      -- that hold the search in their name, article number or description, are of the category, and
      -- cost no more than the limit, an empty search and "All" leaving every product; each as often as
      -- it was loaded, and in the order that is chosen: as loaded, by the price up or down, or as the
      -- comparison of names sorts them.
      pub processed_products-Arranges :
          (f : Filters N) (products : List (Product N))
          → All IsPriced products
          → let wanted = filter (is_wanted f) products in
            let shown = processed_products to_lower compare f products in
            Perm shown wanted × Arranges f.sort_by wanted shown
      unfolding processed_products
      processed_products-Arranges f products h =
          rw
            (filter_three (text_eq f.search []) (str_eq f.selected_category "All")
                (is_found to_lower compare f.search) (is_in f.selected_category)
                (λ p. num.le p.price f.max_price) products
              ∙ filter-is_wanted f products)
            (sorted_by-Arranges f.sort_by _ (All-filter IsPriced (is_wanted f) products h))
