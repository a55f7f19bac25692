-- ===== src/Pages/CartPage.antt =====
-- frontend/src/pages/Cart.tsx: what the page shows of the cart, and its buttons.
use cloudscale_commerce.Prelude.{if◌then◌else◌, Option, none, some, List, [], ◌∷◌, map, String}
use cloudscale_commerce.Number.{Number, nought, one}
use cloudscale_commerce.Cart.{
  CartItem, CartState, apply_coupon, update_quantity, remove_item, get_cart_totals,
}

pub record Row (N : Type 0) : Type 0 where
  pub sku : String
  pub name : String
  pub price : N
  pub quantity : N

pub record Summary (N : Type 0) : Type 0 where
  pub subtotal : N
  pub discount : Option (Option String × N)
  pub tax : N
  pub shipping : N
  pub total : N

pub data View (N : Type 0) : Type 0 where
  empty : View N
  filled : List (Row N) → Summary N → View N

pub data Event (N : Type 0) : Type 0 where
  minus plus remove : CartItem N → Event N
  type_coupon : String → Event N
  apply : Event N

pub record CartPage (N : Type 0) : Type 0 where
  pub cart : CartState N
  pub coupon_input : String

module _ {N : Type 0} ⦃num : Number N⦄ where
  row : CartItem N → Row N
  row item = record {
    sku = item.sku;
    name = item.name;
    price = item.price;
    quantity = item.quantity;
  }

  discount_line : Option String → N → Option (Option String × N)
  discount_line coupon_code discount =
      if num.lt nought discount then some (coupon_code, discount) else none

  view_of : List (CartItem N) → CartState N → View N
  unfolding row discount_line
  view_of [] s = empty
  view_of (item ∷ items) s =
      let totals = get_cart_totals s in
      filled (map row (item ∷ items)) (record {
        subtotal = totals.subtotal;
        discount = discount_line s.coupon_code totals.discount;
        tax = totals.tax;
        shipping = num.decimal 999 2;
        total = totals.total;
      })

  pub render : CartPage N → View N
  unfolding view_of
  render s = view_of s.cart.items s.cart

  -- `item` is the line whose button is pressed.
  pub step : (to_upper : String → String) → Event N → CartPage N → CartPage N
  step to_upper (minus item) s = record s {
    cart = update_quantity item.product_id (num.sub item.quantity one) s.cart;
  }
  step to_upper (plus item) s = record s {
    cart = update_quantity item.product_id (num.add item.quantity one) s.cart;
  }
  step to_upper (remove item) s = record s { cart = remove_item item.product_id s.cart }
  step to_upper (type_coupon text) s = record s { coupon_input = text }
  step to_upper apply s = record s { cart = apply_coupon to_upper s.coupon_input s.cart }
