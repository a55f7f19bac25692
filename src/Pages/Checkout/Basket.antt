-- ===== src/Pages/Checkout/Basket.antt =====
-- frontend/src/stores/cartStore.ts behind frontend/src/pages/Checkout.tsx: what the calls of the page
-- ask for, whatever the cart has been through.
use cloudscale_commerce.Prelude.{
  ℕ, ◌≡◌, ◌≢◌, Bool, false, not, ◌||◌, Bool-cases, inl, inr, Option, none, some, List, [], ◌∷◌, map,
  All, All-append, String,
}
use cloudscale_commerce.Number.{Number, IsRounding, nought}
use cloudscale_commerce.Cart.{CartItem, CartState, clear_cart}
use cloudscale_commerce.Cart.Invariant.{IsDistinct, IsStocked, IsValid, Action, clear, step-IsValid}
use cloudscale_commerce.Cart.Invariant
use cloudscale_commerce.Stores.Notification.{NotificationState}
use cloudscale_commerce.Api.Client.{Rejection}
use cloudscale_commerce.Pages.Autosave.{mount, get_saved_draft, effect, read}
use cloudscale_commerce.Pages.Checkout.{
  Checkout, Form, OrderLine, Call, reserve_batch, orders, Phase, idle, reserving, ordering, Event,
  edit, rerender, timer, cart_changed, submit, reserve_settled, order_settled, line, order_of,
  passes, saved, open_page, on_submit, on_answer, on_reserved, on_settled, step, run,
}

module _ {N : Type 0} where
  -- No two lines of an order are of one product.
  abbrev pub IsSingle : List (OrderLine N) → Type 0
  IsSingle [] = Unit
  IsSingle (l ∷ lines) = All (λ other. other.product_id ≢ l.product_id) lines × IsSingle lines

  Differs-line :
      (id : String) (items : List (CartItem N))
      → All (λ item. item.product_id ≢ id) items
      → All (λ other. other.product_id ≢ id) (map line items)
  unfolding line
  Differs-line id [] h = tt
  Differs-line id (x ∷ items) (hx, h) = (hx, Differs-line id items h)

  IsSingle-line : (items : List (CartItem N)) → IsDistinct items → IsSingle (map line items)
  unfolding line
  IsSingle-line [] d = tt
  IsSingle-line (x ∷ items) (dx, d) = (Differs-line x.product_id items dx, IsSingle-line items d)

module _ {N : Type 0} ⦃num : Number N⦄ where
  open num use {le}

  -- Every quantity is more than nought, and no product has two lines.
  abbrev pub IsOrderable : List (OrderLine N) → Type 0
  IsOrderable lines = IsSingle lines × All (λ l. le l.quantity nought ≡ false) lines

  Stocked-line :
      (items : List (CartItem N))
      → All IsStocked items
      → All (λ l. le l.quantity nought ≡ false) (map line items)
  unfolding line
  Stocked-line [] h = tt
  Stocked-line (x ∷ items) (hx, h) = (hx, Stocked-line items h)

  abbrev pub Asks : Call N → Type 0
  Asks (reserve_batch lines) = IsOrderable lines
  Asks (orders order) = IsOrderable order.items

  abbrev Waits : Phase N → Type 0
  Waits idle = Unit
  Waits (reserving order) = IsOrderable order.items
  Waits (ordering order) = IsOrderable order.items

  module _ (to_upper : String → String) where
    -- The cart that another part of the shop leaves behind is valid.
    abbrev pub Respects : Event N → Type 0
    Respects (cart_changed cart) = IsValid to_upper cart
    Respects _ = Unit

    IsOrderable-order_of :
        (form : Form) (cart : CartState N)
        → IsValid to_upper cart
        → IsOrderable (order_of form cart.items).items
    unfolding order_of
    IsOrderable-order_of form cart v =
        (IsSingle-line cart.items v.distinct, Stocked-line cart.items v.stocked)

    record Holds (s : Checkout N) : Type 0 where
      valid : IsValid to_upper s.cart
      waits : Waits s.phase

    module _ (laws : IsRounding N) (units : String → ℕ) (inherited : String → Bool)
        (new_id now : String) where
      clear_cart-IsValid :
          (cart : CartState N) → IsValid to_upper cart → IsValid to_upper (clear_cart cart)
      unfolding Invariant.step
      clear_cart-IsValid cart v = step-IsValid to_upper laws cart clear v

      on_settled-Holds :
          (answer : Option Rejection) (p : Phase N) (s : Checkout N)
          → Holds s
          → Holds (on_settled units inherited new_id now answer p s)
      unfolding on_settled on_answer saved
      on_settled-Holds answer idle s h = h
      on_settled-Holds answer (reserving order) s h = h
      on_settled-Holds none (ordering order) s h = record {
        valid = clear_cart-IsValid s.cart h.valid;
        waits = tt;
      }
      on_settled-Holds (some e) (ordering order) s h = record { valid = h.valid; waits = tt }

      on_reserved-Holds :
          (p : Phase N) (s : Checkout N)
          → Waits p
          → Holds s
          → Holds (on_reserved units inherited p s).0 × All Asks (on_reserved units inherited p s).1
      unfolding on_reserved
      on_reserved-Holds idle s w h = (h, tt)
      on_reserved-Holds (reserving order) s w h = (record { valid = h.valid; waits = w }, (w, tt))
      on_reserved-Holds (ordering order) s w h = (h, tt)

      step-Holds :
          (e : Event N) (s : Checkout N)
          → Respects e
          → Holds s
          → Holds (step units inherited new_id now e s).0
            × All Asks (step units inherited new_id now e s).1
      unfolding step saved on_submit
      step-Holds (edit form) s good h = elim (Bool-cases s.success) [
        | inl done ↦ rw done (record { valid = h.valid; waits = h.waits }, tt)
        | inr asks ↦ rw asks (record { valid = h.valid; waits = h.waits }, tt)
      ]
      step-Holds rerender s good h = (record { valid = h.valid; waits = h.waits }, tt)
      step-Holds (timer fits) s good h = (record { valid = h.valid; waits = h.waits }, tt)
      step-Holds (cart_changed cart) s good h = (record { valid = good; waits = h.waits }, tt)
      step-Holds submit s good h =
          let lines = IsOrderable-order_of s.form s.cart h.valid in
          elim (Bool-cases (s.success || s.loading || not (passes units s.form))) [
            | inl stays ↦ rw stays (h, tt)
            | inr goes ↦ rw goes (record { valid = h.valid; waits = lines }, (lines, tt))
          ]
      step-Holds (reserve_settled is_rejected) s good h = on_reserved-Holds s.phase s h.waits h
      step-Holds (order_settled answer) s good h = (on_settled-Holds answer s.phase s h, tt)

      run-Asks_from :
          (events : List (Event N)) (s : Checkout N)
          → All Respects events
          → Holds s
          → All Asks (run units inherited new_id now events s).1
      unfolding run
      run-Asks_from [] s good h = tt
      run-Asks_from (e ∷ events) s (this, those) h =
          let (kept, asked) = step-Holds e s this h in
          let here = step units inherited new_id now e s in
          All-append Asks here.1 (run units inherited new_id now events here.0).1 asked
            (run-Asks_from events here.0 those kept)

      open_page-Holds :
          (storage : Option (Option Form)) (cart : CartState N) (inbox : NotificationState)
          → IsValid to_upper cart
          → Holds (open_page storage cart inbox)
      unfolding open_page saved effect get_saved_draft read mount
      open_page-Holds none cart inbox v = record { valid = v; waits = tt }
      open_page-Holds (some none) cart inbox v = record { valid = v; waits = tt }
      open_page-Holds (some (some draft)) cart inbox v = record { valid = v; waits = tt }

      -- The page is opened on a valid cart, as any calls of the store leave one behind, and other parts of
      -- the shop leave only valid carts behind. Then, whatever happens on the page and in whatever order,
      -- each of its calls to reserve and to order lists no product twice and no quantity of nought or
      -- less.
      pub run-Asks :
          (storage : Option (Option Form)) (cart : CartState N) (inbox : NotificationState)
          (events : List (Event N))
          → IsValid to_upper cart
          → All Respects events
          → All Asks (run units inherited new_id now events (open_page storage cart inbox)).1
      run-Asks storage cart inbox events v good =
          run-Asks_from events (open_page storage cart inbox) good
            (open_page-Holds storage cart inbox v)
