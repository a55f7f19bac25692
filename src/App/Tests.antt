-- ===== src/App/Tests.antt =====
-- A session that runs out, at concrete inputs.
use Prim.Native.String
use cloudscale_commerce.Prelude.{
  ℕ, ◌≡◌, refl, Bool, true, false, none, some, List, [], ◌∷◌, ◌++◌, foldl, String,
}
use cloudscale_commerce.Number.{fixed_point}
use cloudscale_commerce.Cart.{CartState}
use cloudscale_commerce.Stores.Tenant.{TenantState, free}
use cloudscale_commerce.Api.Auth.{User, AuthState, Action, initial, step}
use cloudscale_commerce.Api.Errors.{ApiError}
use cloudscale_commerce.Api.Client.{
  Client, Request, Effect, on_error, on_refreshed, is_unauthorized,
}
use cloudscale_commerce.Api.Headers.{Context, header, needs_key, intercept, present, is_mutating}
use cloudscale_commerce.Pages.Checkout
use cloudscale_commerce.Pages.Checkout.Laws.{expected_calls}
use cloudscale_commerce.Shell.Routes.{Page, visit, handle_logout, protected_route}
use cloudscale_commerce.Shell.Routes.Laws.{IsPublic}
use cloudscale_commerce.Api.Headers.Laws.{bearer}
use cloudscale_commerce.App.Session.{
  sent, sent_again, sent-visit, sent-handle_logout, sent_again-sent,
}
use cloudscale_commerce.App.Order.{Expires, is_queued, hears, hears-placed}

abbrev ann : User
ann = record { id = "u1"; email = "ann@example.com"; full_name = "Ann"; role = "customer" }

abbrev session : AuthState
session = record {
  user = some ann;
  access_token = some "a1";
  refresh_token = some "r1";
  is_authenticated = true;
}

abbrev client : Client
client = record { is_refreshing = false; failed_queue = []; auth = session; refreshing = [] }

abbrev timed_out : ApiError
timed_out = ApiError.axios (some 401) none none

abbrev request : Request
request = record { id = 7; has_headers = true; authorization = some "Bearer a1"; retry = false }

abbrev lower : String → String
lower text = text

abbrev tenant : TenantState
tenant = record {
  active_tenant_id = "acme";
  plan_tier = free;
  limits = record { max_products = 10; max_orders = 15 };
}

abbrev sign_in_and_refresh : List Action
sign_in_and_refresh = Action.credentials ann "a0" "r1" ∷ Action.access "a1" ∷ []

abbrev before : Context
before = record {
  access_token = some "a0";
  correlation_id = "c1";
  active_tenant_id = "default-tenant";
  new_key = "k1";
}

sent-visit_example :
    let auth = foldl step initial sign_in_and_refresh in
    (token : String) × (auth.access_token ≡ some token)
    × (header "Authorization" (sent lower "c1" "k2" tenant (some "get") auth [])
        ≡ bearer (some token) none)
unfolding visit protected_route initial step header
sent-visit_example =
    sent-visit lower "c1" "k2" tenant (some "get") sign_in_and_refresh "/orders" Page.orders [] refl
      (λ x. x)

signed_out_without_token :
    IsPublic Page.landing
    × (header "Authorization"
          (sent lower "c1" "k2" tenant (some "get") (handle_logout session).0 [])
        ≡ none)
unfolding visit protected_route
signed_out_without_token =
    sent-handle_logout lower "c1" "k2" tenant (some "get") session "/" Page.landing refl

sent_again-sent_example :
    let auth = (on_refreshed ann "a2" "r2" request [] client).0.auth in
    let first = intercept lower before (some "post") [] in
    let again = sent_again lower "c1" "k2" tenant (some "post") "a2" auth first in
    (header "Authorization" again ≡ some (String.◌++◌ "Bearer " "a2"))
    × (header "Idempotency-Key" again ≡ header "Idempotency-Key" first)
    × (present (header "Idempotency-Key" again) ≡ true)
unfolding needs_key is_mutating
sent_again-sent_example =
    sent_again-sent lower "c1" "k2" tenant (some "post") client ann "a2" "r2" request [] before []
      refl refl refl

abbrev units : String → ℕ
units text = 5

abbrev no_name : String → Bool
no_name name = false

abbrev cart : CartState ℕ
cart = record {
  items =
      record {
        product_id = "p1";
        sku = "S";
        name = "Product 1";
        price = 1_000_000;
        quantity = 20_000;
      }
      ∷ [];
  shipping_cost = 99_900;
  tax_rate = 800;
  coupon_code = none;
  discount_value = 0;
}

abbrev form : Checkout.Form
form = record {
  shipping_address = "12 Main Street";
  city = "Springfield";
  zip_code = "12345";
  payment_method = Checkout.bank_transfer;
}

abbrev filled : Checkout.Checkout ℕ
filled = record {
  form = form;
  autosave = record { storage = some (some form); timer = none; initial_mount = false };
  phase = Checkout.idle;
  loading = false;
  success = false;
  error = none;
  cart = cart;
  inbox = record {
    notifications = [];
    preferences = record { order = true; inventory = true; system = true };
  };
}

client-Expires : Expires client timed_out request "r1"
unfolding is_unauthorized
client-Expires = record { still = refl; here = refl; full = refl; expired = refl; first = refl }

hears-placed_example :
    let asked = on_error timed_out request client in
    let refreshed = on_refreshed ann "a2" "r2" (record request { retry = true }) [] asked.0 in
    let heard = hears none 7 (asked.1 ++ refreshed.1) in
    let after =
      Checkout.run units no_name "n1" "now"
        (Checkout.submit ∷ Checkout.reserve_settled false ∷ heard)
        filled in
    (asked.1 ≡ Effect.post_refresh "r1" ∷ [])
    × (heard ≡ Checkout.order_settled none ∷ [])
    × (after.1 ≡ expected_calls form cart.items)
    × (after.0.success ≡ true)
    × (after.0.error ≡ none)
    × (after.0.cart ≡ record cart { items = []; coupon_code = none; discount_value = 0 })
unfolding Checkout.passes is_queued
hears-placed_example =
    hears-placed units no_name "n1" "now" filled false client timed_out request "r1" [] ann "a2"
      "r2" refl refl refl client-Expires refl refl
