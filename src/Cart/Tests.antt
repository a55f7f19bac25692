-- ===== src/Cart/Tests.antt =====
-- frontend/src/stores/cartStore.ts: runs of its test file, and the theorems at concrete carts.
use cloudscale_commerce.Prelude.{
  ℕ, ◌≡◌, refl, true, false, none, some, List, [], ◌∷◌, foldl, String, ◌⊎◌,
}
use cloudscale_commerce.Number.{fixed_point, fixed_point-IsRounding, nought, ◌≼◌}
use cloudscale_commerce.Cart.{
  CartItem, NewItem, CartState, initial, add_item, remove_item, update_quantity, apply_coupon,
  clear_cart, get_cart_totals, raw_subtotal, has_id,
}
use cloudscale_commerce.Cart.Lines.{line_of, line_of-add_item}
use cloudscale_commerce.Cart.Invariant.{Action, IsValid, step, run-IsValid}
use cloudscale_commerce.Cart.Totals.{IsBilled, get_cart_totals_bounds, apply_coupon_never_dearer}

-- `toUpperCase` on texts that are already in capitals.
abbrev capitals : String → String
capitals s = s

abbrev product : NewItem ℕ
product = record { product_id = "p1"; sku = "SKU123"; name = "Product 1"; price = 1_000_000 }

abbrev line : ℕ → CartItem ℕ
line quantity = record {
  product_id = "p1";
  sku = "SKU123";
  name = "Product 1";
  price = 1_000_000;
  quantity = quantity;
}

abbrev holding : List (CartItem ℕ) → CartState ℕ
holding items = record {
  items = items;
  shipping_cost = 99_900;
  tax_rate = 800;
  coupon_code = none;
  discount_value = 0;
}

program : Unit {0}
unfolding initial add_item remove_item update_quantity apply_coupon clear_cart get_cart_totals
program = tt

adds_items : add_item product initial ≡ holding (line 10_000 ∷ [])
unfolding program
adds_items = refl

totals_with_tax :
    get_cart_totals (add_item product (add_item product initial))
    ≡ record { subtotal = 2_000_000; discount = 0; tax = 160_000; total = 2_259_900 }
unfolding program
totals_with_tax = refl

totals_with_coupon :
    get_cart_totals (apply_coupon capitals "CLOUDSCALE10" (add_item product initial))
    ≡ record { subtotal = 1_000_000; discount = 100_000; tax = 72_000; total = 1_071_900 }
unfolding program
totals_with_coupon = refl

line_of-add_item_example :
    line_of "p1" (add_item product (holding (line 10_000 ∷ []))) ≡ some (line 20_000)
unfolding has_id
line_of-add_item_example = line_of-add_item "p1" product (holding (line 10_000 ∷ []))

abbrev calls : List (Action ℕ)
calls =
    Action.add product
    ∷ Action.coupon "CLOUDSCALE10"
    ∷ Action.add product
    ∷ Action.update "p1" 0
    ∷ Action.add product
    ∷ []

run-IsValid_example : IsValid capitals (foldl (step capitals) initial calls)
run-IsValid_example = run-IsValid capitals fixed_point-IsRounding calls

billed_example : IsBilled (holding (line 10_000 ∷ []))
unfolding raw_subtotal
billed_example = record {
  priced = (((refl, refl), (refl, refl)), tt);
  finite = refl;
  tax_rate = (refl, refl);
  discount_value = (refl, refl);
  shipping = refl;
}

get_cart_totals_bounds_example :
    let s = holding (line 10_000 ∷ []) in
    let totals = get_cart_totals s in
    (0 ≼ totals.discount)
    × (totals.discount ≼ totals.subtotal)
    × (0 ≼ totals.tax)
    × (totals.tax ≼ totals.subtotal)
    × ((fixed_point.lt nought (raw_subtotal s.items) ≡ true) × (99_900 ≼ totals.total)
        ⊎ (fixed_point.lt nought (raw_subtotal s.items) ≡ false) × (totals.total ≡ 0))
get_cart_totals_bounds_example =
    get_cart_totals_bounds fixed_point-IsRounding (holding (line 10_000 ∷ [])) billed_example

apply_coupon_never_dearer_example :
    let s = holding (line 10_000 ∷ []) in
    let cheaper = get_cart_totals (apply_coupon capitals "CLOUDSCALE10" s) in
    let usual = get_cart_totals (apply_coupon capitals "WELCOME" s) in
    (cheaper.total ≼ usual.total) × (cheaper.subtotal ≡ usual.subtotal)
apply_coupon_never_dearer_example =
    apply_coupon_never_dearer fixed_point-IsRounding capitals "CLOUDSCALE10" "WELCOME"
      (holding (line 10_000 ∷ [])) billed_example refl
