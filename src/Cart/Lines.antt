-- ===== src/Cart/Lines.antt =====
-- What each operation of the cart does to the line of every product.
use cloudscale_commerce.Prelude.{
  Bool-cases, inl, inr, ◌≡◌, refl, true, false, not, if◌then◌else◌, Option, none, some, List, [],
  ◌∷◌, ◌++◌, map, find, filter, String, str_eq, eq_iff, arith,
}
use mathlib.Core.Option
use cloudscale_commerce.Number.{Number, nought, one}
use cloudscale_commerce.Cart.{
  CartItem, NewItem, CartState, has_id, is_some, with_quantity, bump, set_quantity, add_item,
  remove_item, update_quantity,
}

module _ {N : Type 0} where
  -- The line of a product, as the pages look it up.
  abbrev pub line_of : String → CartState N → Option (CartItem N)
  line_of id s = find (has_id id) s.items

  find-append_absent :
      (id : String) (items : List (CartItem N)) (last : CartItem N)
      → find (has_id id) (items ++ last ∷ []) ≡ (
          if is_some (find (has_id id) items)
          then find (has_id id) items
          else if has_id id last
          then some last
          else none)
  unfolding is_some
  find-append_absent id [] last = refl
  find-append_absent id (x ∷ items) last = ground (arith, find-append_absent id items last)

  find-filter :
      (q id : String) (items : List (CartItem N))
      → find (has_id q) (filter (λ item. not (has_id id item)) items)
        ≡ (if str_eq id q then none else find (has_id q) items)
  unfolding has_id
  find-filter q id [] = ground arith
  find-filter q id (x ∷ items) =
      ground
        (arith, find-filter q id items, eq_iff x.product_id id, eq_iff x.product_id q, eq_iff id q)

  -- After `removeItem` the product has no line, and the line of every other product is unchanged.
  pub line_of-remove_item :
      (q id : String) (s : CartState N)
      → line_of q (remove_item id s) ≡ (if str_eq id q then none else line_of q s)
  unfolding remove_item
  line_of-remove_item q id s = find-filter q id s.items

module _ {N : Type 0} ⦃num : Number N⦄ where
  abbrev with_one_more : CartItem N → CartItem N
  with_one_more item = record item { quantity = num.add item.quantity one }

  abbrev pub with_new_quantity : N → CartItem N → CartItem N
  with_new_quantity quantity item = record item { quantity = quantity }

  find-bump :
      (q id : String) (items : List (CartItem N))
      → find (has_id q) (map (bump id) items) ≡ (
          if str_eq id q
          then Option.map with_one_more (find (has_id q) items)
          else find (has_id q) items)
  unfolding has_id bump
  find-bump q id [] = ground arith
  find-bump q id (x ∷ items) =
      ground
        (arith, find-bump q id items, eq_iff x.product_id id, eq_iff x.product_id q, eq_iff id q)

  find-set_quantity :
      (q id : String) (quantity : N) (items : List (CartItem N))
      → find (has_id q) (map (set_quantity id quantity) items) ≡ (
          if str_eq id q
          then Option.map (with_new_quantity quantity) (find (has_id q) items)
          else find (has_id q) items)
  unfolding has_id set_quantity
  find-set_quantity q id quantity [] = ground arith
  find-set_quantity q id quantity (x ∷ items) = ground (
    arith,
    find-set_quantity q id quantity items,
    eq_iff x.product_id id,
    eq_iff x.product_id q,
    eq_iff id q,
  )

  -- What `addItem` leaves of the line of product `q`: one more of the product that is added, with
  -- the rest of its line kept, or a new line with one piece.
  abbrev pub added : NewItem N → String → Option (CartItem N) → Option (CartItem N)
  added new q none = if str_eq new.product_id q then some (with_quantity new one) else none
  added new q (some item) = if str_eq new.product_id q then some (with_one_more item) else some item

  added_of_found :
      (q : String) (new : NewItem N) (o : Option (CartItem N))
      → (str_eq new.product_id q ≡ true → is_some o ≡ true)
      → (if str_eq new.product_id q then Option.map with_one_more o else o) ≡ added new q o
  unfolding is_some
  added_of_found q new none h = ground (arith, h)
  added_of_found q new (some item) h = ground arith

  added_of_absent :
      (q : String) (new : NewItem N) (o : Option (CartItem N))
      → (str_eq new.product_id q ≡ true → is_some o ≡ false)
      → (if is_some o
          then o
          else if has_id q (with_quantity new one)
          then some (with_quantity new one)
          else none)
        ≡ added new q o
  unfolding is_some has_id
  added_of_absent q new none h = refl
  added_of_absent q new (some item) h = ground (arith, h)

  -- `addItem`, seen through the line of any product: the product that is added has one piece more,
  -- or a new line with one piece; the line of every other product is unchanged.
  pub line_of-add_item :
      (q : String) (new : NewItem N) (s : CartState N)
      → line_of q (add_item new s) ≡ added new q (line_of q s)
  unfolding add_item
  line_of-add_item q new s = elim (Bool-cases (is_some (find (has_id new.product_id) s.items))) [
    | inl old ↦
        rw (old, find-bump)
          (added_of_found q new (line_of q s) (λ same. rw (← (eq_iff new.product_id q).0 same) old))
    | inr fresh ↦
        rw (fresh, find-append_absent)
          (added_of_absent q new (line_of q s)
            (λ same. rw (← (eq_iff new.product_id q).0 same) fresh))
  ]

  -- `updateQuantity`, seen through the line of any product: at zero or less the line is gone, else
  -- its quantity is the new one; no line is made, and other products keep theirs.
  pub line_of-update_quantity :
      (q id : String) (quantity : N) (s : CartState N)
      → line_of q (update_quantity id quantity s) ≡ (
          if str_eq id q
          then (if num.le quantity nought
              then none
              else Option.map (with_new_quantity quantity) (line_of q s))
          else line_of q s)
  unfolding update_quantity
  line_of-update_quantity q id quantity s =
      ground (arith, line_of-remove_item q id s, find-set_quantity q id quantity s.items)
