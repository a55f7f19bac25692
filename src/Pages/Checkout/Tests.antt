-- ===== src/Pages/Checkout/Tests.antt =====
-- The calls of the page for two carts.
use cloudscale_commerce.Prelude.{
  ℕ, Bool, true, false, none, some, List, [], ◌∷◌, foldl, All, String,
}
use cloudscale_commerce.Number.{fixed_point, fixed_point-IsRounding}
use cloudscale_commerce.Cart.{NewItem, CartState, initial}
use cloudscale_commerce.Cart.Invariant
use cloudscale_commerce.Cart.Invariant.{Action, run-IsValid}
use cloudscale_commerce.Stores.Notification.{NotificationState}
use cloudscale_commerce.Pages.Checkout.{
  Form, credit_card, Event, edit, submit, cart_changed, reserve_settled, order_settled, open_page,
  run,
}
use cloudscale_commerce.Pages.Checkout.Basket.{Asks, run-Asks}

abbrev capitals : String → String
capitals text = text

abbrev units : String → ℕ
units text = 5

abbrev no_name : String → Bool
no_name name = false

abbrev product : String → NewItem ℕ
product id = record { product_id = id; sku = id; name = id; price = 1_000_000 }

abbrev filling : List (Action ℕ)
filling =
    Invariant.add (product "p1") ∷ Invariant.add (product "p2") ∷ Invariant.update "p1" 30_000 ∷ []

abbrev cart : CartState ℕ
cart = foldl (Invariant.step capitals) initial filling

abbrev fuller_cart : CartState ℕ
fuller_cart = foldl (Invariant.step capitals) initial (Invariant.add (product "p3") ∷ filling)

abbrev inbox : NotificationState
inbox = record {
  notifications = [];
  preferences = record { order = true; inventory = true; system = true };
}

abbrev form : Form
form = record {
  shipping_address = "12 Main Street";
  city = "Springfield";
  zip_code = "12345";
  payment_method = credit_card;
}

abbrev happenings : List (Event ℕ)
happenings =
    edit form ∷ submit ∷ cart_changed fuller_cart ∷ reserve_settled false ∷ order_settled none ∷ []

run-Asks_example :
    All Asks (run units no_name "n1" "now" happenings (open_page (some none) cart inbox)).1
run-Asks_example =
    run-Asks capitals fixed_point-IsRounding units no_name "n1" "now" (some none) cart inbox
      happenings (run-IsValid capitals fixed_point-IsRounding filling)
      (
        tt,
        (
          tt,
          (
            run-IsValid capitals fixed_point-IsRounding (Invariant.add (product "p3") ∷ filling),
            (tt, (tt, tt)),
          ),
        ),
      )
