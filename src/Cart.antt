-- ===== src/Cart.antt =====
-- frontend/src/stores/cartStore.ts: the lines of the cart, the coupon and the totals. `set` of the
-- store is the record that an operation returns.
pub mod Lines
pub mod Invariant
pub mod Totals
mod Tests
use cloudscale_commerce.Prelude.{
  Bool, true, false, not, if◌then◌else◌, Option, none, some, List, [], ◌∷◌, ◌++◌, map, foldl,
  filter, find, String, str_eq,
}
use cloudscale_commerce.Number.{Number, nought, one}

pub record CartItem (N : Type 0) : Type 0 where
  pub product_id : String
  pub sku : String
  pub name : String
  pub price : N
  pub quantity : N

-- `Omit<CartItem, "quantity">`
pub record NewItem (N : Type 0) : Type 0 where
  pub product_id : String
  pub sku : String
  pub name : String
  pub price : N

pub record CartState (N : Type 0) : Type 0 where
  pub items : List (CartItem N)
  pub shipping_cost : N
  pub tax_rate : N
  pub coupon_code : Option String
  pub discount_value : N

pub record CartTotals (N : Type 0) : Type 0 where
  pub subtotal : N
  pub discount : N
  pub tax : N
  pub total : N

module _ {N : Type 0} where
  pub has_id : String → CartItem N → Bool
  has_id id item = str_eq item.product_id id

  -- `find` of a line by its product, as a test.
  is_some : Option (CartItem N) → Bool
  is_some none = false
  is_some (some _) = true

  -- `{ ...newItem, quantity: 1 }`
  abbrev with_quantity : NewItem N → N → CartItem N
  with_quantity new quantity = record {
    product_id = new.product_id;
    sku = new.sku;
    name = new.name;
    price = new.price;
    quantity = quantity;
  }

  pub remove_item : String → CartState N → CartState N
  unfolding has_id
  remove_item product_id s = record s {
    items = filter (λ item. not (has_id product_id item)) s.items;
  }

module _ {N : Type 0} ⦃num : Number N⦄ where
  open num use {decimal, add, sub, mul, le, lt, to_fixed2}

  pub initial : CartState N
  initial = record {
    items = [];
    shipping_cost = decimal 999 2;
    tax_rate = decimal 8 2;
    coupon_code = none;
    discount_value = nought;
  }

  -- The callback that `addItem` maps over the lines.
  bump : String → CartItem N → CartItem N
  unfolding has_id
  bump id item = if has_id id item then record item { quantity = add item.quantity one } else item

  pub add_item : NewItem N → CartState N → CartState N
  unfolding has_id is_some bump
  add_item new s =
      if is_some (find (has_id new.product_id) s.items)
      then record s { items = map (bump new.product_id) s.items }
      else record s { items = s.items ++ with_quantity new one ∷ [] }

  -- The callback that `updateQuantity` maps over the lines.
  set_quantity : String → N → CartItem N → CartItem N
  unfolding has_id
  set_quantity id quantity item =
      if has_id id item then record item { quantity = quantity } else item

  pub update_quantity : String → N → CartState N → CartState N
  unfolding remove_item set_quantity
  update_quantity product_id quantity s =
      if le quantity nought
      then remove_item product_id s
      else record s { items = map (set_quantity product_id quantity) s.items }

  -- `to_upper` is `toUpperCase` of the runtime.
  pub apply_coupon : (to_upper : String → String) → String → CartState N → CartState N
  apply_coupon to_upper code s =
      if str_eq (to_upper code) "CLOUDSCALE10"
      then record s { coupon_code = some code; discount_value = decimal 1 1 }
      else record s { coupon_code = none; discount_value = nought }

  unfoldable pub clear_cart : CartState N → CartState N
  clear_cart s = record s { items = []; coupon_code = none; discount_value = nought }

  -- The callback of `reduce`.
  abbrev add_line : N → CartItem N → N
  add_line acc item = add acc (mul item.price item.quantity)

  pub raw_subtotal : List (CartItem N) → N
  raw_subtotal = foldl add_line nought

  pub get_cart_totals : CartState N → CartTotals N
  unfolding raw_subtotal
  get_cart_totals s =
      let subtotal = raw_subtotal s.items in
      let discount = mul subtotal s.discount_value in
      let taxable_amount = sub subtotal discount in
      let tax = mul taxable_amount s.tax_rate in
      let total =
        if lt nought subtotal then add (add taxable_amount tax) s.shipping_cost else nought in
      record {
        subtotal = to_fixed2 subtotal;
        discount = to_fixed2 discount;
        tax = to_fixed2 tax;
        total = to_fixed2 total;
      }
