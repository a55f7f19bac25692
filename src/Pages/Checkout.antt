-- ===== src/Pages/Checkout.antt =====
-- frontend/src/pages/Checkout.tsx: the form, its two calls one after the other, and what the page does
-- with their answers. `zod` is the test of the form, the length of a text a parameter.
pub mod Laws
pub mod Basket
mod Tests
use Prim.Native.String
use cloudscale_commerce.Prelude.{
  ℕ, ltb, Bool, true, false, not, ◌&&◌, ◌||◌, if◌then◌else◌, Option, none, some, List, [], ◌∷◌,
  ◌++◌, map, String, str_eq,
}
use cloudscale_commerce.Number.{Number}
use cloudscale_commerce.Cart.{CartItem, CartState, CartTotals, clear_cart, get_cart_totals}
use cloudscale_commerce.Stores.Notification.{NotificationState, add_notification}
use cloudscale_commerce.Api.Client.{Rejection}
use cloudscale_commerce.Pages.Answers.{response_detail, message_of, or_else}
use cloudscale_commerce.Pages.Autosave.{
  Autosave, mount, get_saved_draft, clear_draft, effect, on_timer,
}

pub data Payment : Type 0 where
  credit_card bank_transfer : Payment

pub record Form : Type 0 where
  pub shipping_address : String
  pub city : String
  pub zip_code : String
  pub payment_method : Payment

pub record Errors : Type 0 where
  pub shipping_address : Option String
  pub city : Option String
  pub zip_code : Option String

abbrev default_values : Form
default_values = record {
  shipping_address = "";
  city = "";
  zip_code = "";
  payment_method = credit_card;
}

-- `z.string().min(least, message)`; `units` is the length of a text in code units.
min : (units : String → ℕ) → ℕ → String → String → Option String
min units least message text = if ltb (units text) least then some message else none

pub validate : (units : String → ℕ) → Form → Errors
unfolding min
validate units form = record {
  shipping_address = min units 5 "Enter your shipping street address" form.shipping_address;
  city = min units 2 "Enter a valid city name" form.city;
  zip_code = min units 5 "Zip code must be at least 5 digits" form.zip_code;
}

is_none : Option String → Bool
is_none text = elim text [ none ↦ true | some message ↦ false ]

unfoldable pub passes : (units : String → ℕ) → Form → Bool
unfolding validate is_none
passes units form =
    let errors = validate units form in
    is_none errors.shipping_address && is_none errors.city && is_none errors.zip_code

pub record OrderLine (N : Type 0) : Type 0 where
  pub product_id : String
  pub quantity : N

pub record Order (N : Type 0) : Type 0 where
  pub items : List (OrderLine N)
  pub shipping_address : String
  pub payment_method : Payment

pub data Call (N : Type 0) : Type 0 where
  reserve_batch : List (OrderLine N) → Call N
  orders : Order N → Call N

-- At which `await` the handler stands.
pub data Phase (N : Type 0) : Type 0 where
  idle : Phase N
  reserving : Order N → Phase N
  ordering : Order N → Phase N

pub record Checkout (N : Type 0) : Type 0 where
  pub form : Form
  pub autosave : Autosave Form
  pub phase : Phase N
  pub loading : Bool
  pub success : Bool
  pub error : Option String
  pub cart : CartState N
  pub inbox : NotificationState

-- The cart is changed from elsewhere too; a new form, or another reason to render the page.
pub data Event (N : Type 0) : Type 0 where
  edit : Form → Event N
  rerender : Event N
  timer : (fits : Bool) → Event N
  cart_changed : CartState N → Event N
  submit : Event N
  reserve_settled : (is_rejected : Bool) → Event N
  order_settled : Option Rejection → Event N

-- The alert after a failure, if the handler does not fail itself.
unfoldable pub failure : Rejection → Option String → Option String
failure Rejection.null error = error
failure e error = some (
    or_else (response_detail e)
      (or_else (message_of e) "Failed to process order checkout. Try again."))

module _ {N : Type 0} where
  line : CartItem N → OrderLine N
  line item = record { product_id = item.product_id; quantity = item.quantity }

  pub order_of : Form → List (CartItem N) → Order N
  unfolding line
  order_of form items = record {
    items = map line items;
    shipping_address = String.◌++◌ form.shipping_address (
        String.◌++◌ ", "
          (String.◌++◌ form.city (String.◌++◌ " (" (String.◌++◌ form.zip_code ")"))));
    payment_method = form.payment_method;
  }

  -- The effect of `useFormAutosave` when the page is rendered.
  saved : Checkout N → Checkout N
  saved s = record s { autosave = effect (not s.success) s.form s.autosave }

  -- The page is opened: the effect of the hook, then the one that loads the draft.
  pub open_page : Option (Option Form) → CartState N → NotificationState → Checkout N
  unfolding saved
  open_page storage cart inbox =
      let first : Checkout N = record {
        form = default_values;
        autosave = effect true default_values (mount storage);
        phase = idle;
        loading = false;
        success = false;
        error = none;
        cart = cart;
        inbox = inbox;
      } in
      elim (get_saved_draft first.autosave) [
        | none ↦ first
        | some draft ↦ saved (record first { form = draft })
      ]

module _ {N : Type 0} ⦃num : Number N⦄ (units : String → ℕ) (inherited : String → Bool) where
  -- `setLoading` renders the page again, as it does after a refusal.
  on_submit : Checkout N → Checkout N × List (Call N)
  unfolding saved
  on_submit s =
      let order = order_of s.form s.cart.items in
      (
        saved (record s { loading = true; error = none; phase = reserving order }),
        reserve_batch order.items ∷ [],
      )

  -- `new_id` and `now` are what the notification store draws.
  on_answer : (new_id now : String) → Option Rejection → Checkout N → Checkout N
  unfolding saved failure
  on_answer new_id now none s = saved (record s {
    inbox =
        (add_notification inherited new_id now "Order Placed"
          "Your checkout transaction completed successfully." "order" s.inbox).0;
    cart = clear_cart s.cart;
    autosave = clear_draft s.autosave;
    success = true;
    phase = idle;
    loading = false;
  })
  on_answer new_id now (some e) s =
      saved (record s { error = failure e s.error; phase = idle; loading = false })

  on_reserved : Phase N → Checkout N → Checkout N × List (Call N)
  on_reserved (reserving order) s = (record s { phase = ordering order }, orders order ∷ [])
  on_reserved _ s = (s, [])

  on_settled : (new_id now : String) → Option Rejection → Phase N → Checkout N → Checkout N
  unfolding on_answer
  on_settled new_id now answer (ordering order) s = on_answer new_id now answer s
  on_settled new_id now answer _ s = s

  pub step : (new_id now : String) → Event N → Checkout N → Checkout N × List (Call N)
  unfolding saved on_submit on_reserved on_settled
  step new_id now (edit form) s =
      if s.success then (s, []) else (saved (record s { form = form }), [])
  step new_id now rerender s = (saved s, [])
  step new_id now (timer fits) s = (record s { autosave = on_timer fits s.autosave }, [])
  step new_id now (cart_changed cart) s = (record s { cart = cart }, [])
  step new_id now submit s =
      if s.success || s.loading || not (passes units s.form) then (s, []) else on_submit s
  step new_id now (reserve_settled is_rejected) s = on_reserved s.phase s
  step new_id now (order_settled answer) s = (on_settled new_id now answer s.phase s, [])

  pub run : (new_id now : String) → List (Event N) → Checkout N → Checkout N × List (Call N)
  unfolding step
  run new_id now [] s = (s, [])
  run new_id now (e ∷ events) s =
      let here = step new_id now e s in
      let later = run new_id now events (here.0) in (later.0, here.1 ++ later.1)

-- What the page shows: the thanks, or the form with the alert, the errors and the total.
pub data View (N : Type 0) : Type 0 where
  placed : View N
  form_view :
      (alert : Option String) (errors : Errors) (selected : Payment) (loading : Bool) (total : N)
      → View N

shown : Option String → Option String
shown none = none
shown (some text) = if str_eq text "" then none else some text

pub render : {N : Type 0} → ⦃num : Number N⦄ → Errors → Checkout N → View N
unfolding shown
render errors s =
    if s.success
    then placed
    else form_view (shown s.error) errors s.form.payment_method s.loading
        (get_cart_totals s.cart).total
