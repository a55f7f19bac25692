-- ===== src/Pages/Tests.antt =====
-- The pages at concrete inputs.

use mathlib.Core.List.{Perm}
use cloudscale_commerce.Prelude.{
  ℕ, ◌≡◌, ◌↔◌, refl, Bool, true, false, not, none, some, List, [], ◌∷◌, filter, String,
}
use cloudscale_commerce.Number.{fixed_point, fixed_point-IsRounding}
use cloudscale_commerce.Text.{Text, literal, text_eq, includes}
use cloudscale_commerce.Tables.DataTable.{TableState, filtered}
use cloudscale_commerce.Pages.Columns.{
  inventory_columns, order_columns, user_columns, filtered-columns,
}
use cloudscale_commerce.Sort.{Sign}
use cloudscale_commerce.Cart.{CartState}
use cloudscale_commerce.Stores.Notification.{NotificationState}
use cloudscale_commerce.Stores.Wishlist.{is_wishlisted}
use cloudscale_commerce.Api.Errors.{ApiError}
use cloudscale_commerce.Api.Client.{Client, Request, Rejection, is_unauthorized, on_error}
use cloudscale_commerce.Pages.Answers.{response_detail, or_else}
use cloudscale_commerce.Pages.Autosave.{get_saved_draft}
use cloudscale_commerce.Pages.Checkout
use cloudscale_commerce.Pages.Checkout.Laws.{
  expected_calls, IsSound, run-placed, run-refused, run-IsSound,
}
use cloudscale_commerce.Pages.Catalog
use cloudscale_commerce.Pages.Catalog.Laws.{
  Arranges, is_wanted, handle_toggle_wishlist-title, processed_products-Arranges,
}
use cloudscale_commerce.Pages.Login
use cloudscale_commerce.Pages.Login.Laws.{on_error-twice}
use cloudscale_commerce.Pages.Inventory

abbrev inbox : NotificationState
inbox = record {
  notifications = [];
  preferences = record { order = true; inventory = true; system = true };
}

abbrev cart : CartState ℕ
cart = record {
  items =
      record {
        product_id = "p1";
        sku = "S";
        name = "Product 1";
        price = 1_000_000;
        quantity = 20_000;
      }
      ∷ [];
  shipping_cost = 99_900;
  tax_rate = 800;
  coupon_code = none;
  discount_value = 0;
}

abbrev form : Checkout.Form
form = record {
  shipping_address = "12 Main Street";
  city = "Springfield";
  zip_code = "12345";
  payment_method = Checkout.bank_transfer;
}

-- The length of the texts that the form is filled with, as far as it counts.
abbrev units : String → ℕ
units text = 5

abbrev no_name : String → Bool
no_name name = false

abbrev filled : Checkout.Checkout ℕ
filled = record {
  form = form;
  autosave = record { storage = some (some form); timer = some form; initial_mount = false };
  phase = Checkout.idle;
  loading = false;
  success = false;
  error = some "before";
  cart = cart;
  inbox = inbox;
}

abbrev sold_out : Rejection
sold_out = Rejection.raw (ApiError.axios (some 409) (some "Out of stock.") none)

run-placed_example :
    let after =
      Checkout.run units no_name "n1" "now"
        (Checkout.submit ∷ Checkout.reserve_settled true ∷ Checkout.order_settled none ∷ [])
        filled in
    (after.1 ≡ expected_calls form cart.items)
    × (after.0.success ≡ true)
    × (after.0.loading ≡ false)
    × (after.0.error ≡ none)
    × (after.0.cart ≡ record cart { items = []; coupon_code = none; discount_value = 0 })
    × (get_saved_draft after.0.autosave ≡ none)
    × (after.0.autosave.timer ≡ none)
unfolding Checkout.passes
run-placed_example = run-placed units no_name "n1" "now" filled true refl refl refl

run-refused_example :
    let after =
      Checkout.run units no_name "n1" "now"
        (Checkout.submit
          ∷ Checkout.reserve_settled false
          ∷ Checkout.order_settled (some sold_out)
          ∷ [])
        filled in
    (after.1 ≡ expected_calls form cart.items)
    × (after.0 ≡ record filled {
      autosave = record filled.autosave { timer = some form };
      error = some "Out of stock.";
    })
unfolding Checkout.passes
run-refused_example = run-refused units no_name "n1" "now" filled false sold_out refl refl refl refl

abbrev happenings : List (Checkout.Event ℕ)
happenings =
    Checkout.edit form
    ∷ Checkout.submit
    ∷ Checkout.timer true
    ∷ Checkout.reserve_settled false
    ∷ Checkout.order_settled none
    ∷ Checkout.timer true
    ∷ []

run-IsSound_example :
    IsSound
      (Checkout.run units no_name "n1" "now" happenings
        (Checkout.open_page (some (some form)) cart inbox)).0
run-IsSound_example = run-IsSound units no_name "n1" "now" (some (some form)) cart inbox happenings

abbrev same : Text → Text
same t = t

abbrev by_no_name : String → String → Sign
by_no_name a b = Sign.equal

abbrev priced : String → ℕ → Catalog.Product ℕ
priced id price = record {
  id = id;
  sku = id;
  name = "red shirt";
  description = "";
  price = price;
  is_active = true;
  category = some "Apparel";
  image_url = none;
}

abbrev products : List (Catalog.Product ℕ)
products = priced "a" 30_000 ∷ priced "b" 90_000 ∷ priced "c" 20_000 ∷ []

abbrev cheap : Catalog.Filters ℕ
cheap = record {
  search = literal "shirt";
  selected_category = "Apparel";
  max_price = 50_000;
  sort_by = Catalog.price_asc;
}

processed_products-Arranges_example :
    let wanted = filter (is_wanted fixed_point-IsRounding same by_no_name cheap) products in
    let shown = Catalog.processed_products same by_no_name cheap products in
    Perm shown wanted
    × Arranges fixed_point-IsRounding same by_no_name Catalog.price_asc wanted shown
processed_products-Arranges_example =
    processed_products-Arranges fixed_point-IsRounding same by_no_name cheap products
      ((refl, refl), ((refl, refl), ((refl, refl), tt)))

handle_toggle_wishlist-title_example :
    let (after, toast) = Catalog.handle_toggle_wishlist "p1" [] in
    ((toast.title ≡ "Removed from Wishlist") ↔ (is_wishlisted "p1" [] ≡ false))
    × (is_wishlisted "p1" after ≡ not (is_wishlisted "p1" []))
handle_toggle_wishlist-title_example = handle_toggle_wishlist-title "p1" []

abbrev request : ℕ → Request
request id = record { id = id; has_headers = true; authorization = none; retry = false }

abbrev client : Client
client = record {
  is_refreshing = false;
  failed_queue = [];
  auth = record {
    user = none;
    access_token = none;
    refresh_token = none;
    is_authenticated = false;
  };
  refreshing = [];
}

abbrev wrong : ApiError
wrong = ApiError.axios (some 401) (some "Incorrect email or password") none

abbrev waiting : Login.Login
waiting = record { loading = true; error = none }

on_error-twice_example :
    let first = on_error wrong (request 1) client in
    let second = on_error wrong (request 2) first.0 in
    (Login.heard 1 first.1 waiting
      ≡ record { loading = false; error = some "Incorrect email or password" })
    × (second.0.failed_queue ≡ request 2 ∷ [])
    × (second.0.refreshing ≡ [])
    × (second.1 ≡ [])
    × (Login.heard 2 second.1 waiting ≡ waiting)
unfolding is_unauthorized or_else response_detail
on_error-twice_example =
    on_error-twice client wrong wrong (request 1) (request 2) waiting waiting refl refl refl refl
      refl refl

abbrev lamp : Inventory.InventoryItem ℕ
lamp = record { id = "1"; sku = "LAMP"; quantity = 3; reserved = 0 }

abbrev stock : Inventory.Inventory ℕ
stock = record {
  listing = record { items = lamp ∷ []; loading = false; error = none };
  selected_item = some lamp;
  restock_qty = 7;
  updating = false;
  phase = Inventory.idle;
  inbox = inbox;
}

abbrev no_digits : ℕ → Text
no_digits n = []

abbrev by_no_text : Text → Text → Sign
by_no_text a b = Sign.equal

abbrev asked : TableState
asked = record {
  search = literal "SKU-1";
  sort_col = none;
  sort_dir = none;
  page = 1;
  page_size = 10;
  selected = [];
  hidden_cols = [];
}

abbrev warehouse : List (Inventory.InventoryItem ℕ)
warehouse = record { id = "i1"; sku = "SKU-1"; quantity = 30_000; reserved = 0 } ∷ []

filtered-columns_example :
    (filtered same by_no_text (inventory_columns literal no_digits) asked warehouse ≡ [])
    × (filtered same by_no_text (order_columns literal no_digits) asked [] ≡ [])
    × (filtered same by_no_text (user_columns literal) asked [] ≡ [])
unfolding includes text_eq
filtered-columns_example =
    filtered-columns literal no_digits same by_no_text asked warehouse [] [] refl refl
