-- ===== src/Pages/Checkout/Laws.antt =====
-- What an order leaves behind, whether it is taken or refused, and that the draft of a placed order is
-- gone for good.
use Prim.Native.String
use cloudscale_commerce.Prelude.{
  ℕ, ◌≡◌, refl, ap, sym, ◌∙◌, Bool, true, false, not, ◌||◌, Bool-cases, inl, inr, Option, none,
  some, List, [], ◌∷◌, map, if◌then◌else◌, String, str_eq, arith,
}
use cloudscale_commerce.Number.{Number, nought}
use cloudscale_commerce.Cart.{CartItem, CartState, clear_cart}
use cloudscale_commerce.Stores.Notification.{NotificationState}
use cloudscale_commerce.Api.Errors.{ApiError}
use cloudscale_commerce.Api.Client.{Rejection}
use cloudscale_commerce.Pages.Answers.{or_else, response_detail, message_of}
use cloudscale_commerce.Pages.Autosave.{
  mount, get_saved_draft, clear_draft, effect, on_timer, read, erased, fired, save,
}
use cloudscale_commerce.Pages.Checkout.{
  Form, OrderLine, Call, line, order_of, reserve_batch, orders, Phase, idle, reserving, ordering,
  Checkout, Event, edit, rerender, timer, cart_changed, submit, reserve_settled, order_settled,
  failure, saved, open_page, on_submit, on_reserved, on_settled, on_answer, passes, step, run,
}

module _ {N : Type 0} where
  unfoldable pub is_busy : Phase N → Bool
  is_busy idle = false
  is_busy _ = true

  -- No order is placed, and the button turns as long as the handler waits; or the order is placed, the
  -- handler is through, and the draft is neither saved nor going to be.
  pub data IsSound (s : Checkout N) : Type 0 where
    unplaced : s.success ≡ false → s.loading ≡ is_busy s.phase → IsSound s
    closed :
        s.success ≡ true
        → s.loading ≡ false
        → s.phase ≡ idle
        → get_saved_draft s.autosave ≡ none
        → s.autosave.timer ≡ none
        → IsSound s

module _ {N : Type 0} where
  -- The calls of an order: the products and the quantities of the lines, to reserve them and to order
  -- them, where to, and how it is paid.
  abbrev pub expected_calls : Form → List (CartItem N) → List (Call N)
  expected_calls form items =
      let lines : List (OrderLine N) =
        map (λ item. record { product_id = item.product_id; quantity = item.quantity }) items in
      let tail =
        String.◌++◌ ", "
          (String.◌++◌ form.city (String.◌++◌ " (" (String.◌++◌ form.zip_code ")"))) in
      reserve_batch lines
      ∷ orders (record {
        items = lines;
        shipping_address = String.◌++◌ form.shipping_address tail;
        payment_method = form.payment_method;
      })
      ∷ []

-- The first text that there is, and that is not empty.
abbrev first_text : List (Option String) → String
first_text [] = "Failed to process order checkout. Try again."
first_text (none ∷ texts) = first_text texts
first_text (some text ∷ texts) =
    let later = first_text texts in if str_eq text "" then later else text

abbrev pub expected_alert : Rejection → Option String
expected_alert Rejection.null = none
expected_alert (Rejection.mapped e) = some (first_text (some e.message ∷ []))
expected_alert (Rejection.raw (ApiError.axios status detail message)) =
    some (first_text (detail ∷ message ∷ []))
expected_alert (Rejection.raw (ApiError.other message)) = some (first_text (message ∷ []))

failure-expected_alert : (e : Rejection) → failure e none ≡ expected_alert e
unfolding failure or_else response_detail message_of
failure-expected_alert Rejection.null = refl
failure-expected_alert (Rejection.mapped e) = refl
failure-expected_alert (Rejection.raw (ApiError.axios status none none)) = refl
failure-expected_alert (Rejection.raw (ApiError.axios status none (some m))) = refl
failure-expected_alert (Rejection.raw (ApiError.axios status (some d) none)) = refl
failure-expected_alert (Rejection.raw (ApiError.axios status (some d) (some m))) = refl
failure-expected_alert (Rejection.raw (ApiError.other none)) = refl
failure-expected_alert (Rejection.raw (ApiError.other (some m))) = refl

read-erased : (storage : Option (Option Form)) → read (erased storage) ≡ none
unfolding read erased
read-erased none = refl
read-erased (some draft) = refl

module _ {N : Type 0} ⦃num : Number N⦄ (units : String → ℕ) (inherited : String → Bool)
    (new_id now : String) where
  -- No order is placed yet, nothing waits, and the form passes: the stock is asked for the lines of
  -- the cart, then the order is posted with the same lines, the address and the way of paying of the
  -- form, whatever became of the first call. The order is taken: the page is done, with the lines and
  -- the coupon of the cart gone, no alert, and no draft saved or waiting to be.
  pub run-placed :
      (s : Checkout N) (is_rejected : Bool)
      → s.success ≡ false
      → s.loading ≡ false
      → passes units s.form ≡ true
      → let after =
          run units inherited new_id now
            (submit ∷ reserve_settled is_rejected ∷ order_settled none ∷ [])
            s in
        (after.1 ≡ expected_calls s.form s.cart.items)
        × (after.0.success ≡ true)
        × (after.0.loading ≡ false)
        × (after.0.error ≡ none)
        × (after.0.cart ≡ record s.cart { items = []; coupon_code = none; discount_value = nought })
        × (get_saved_draft after.0.autosave ≡ none)
        × (after.0.autosave.timer ≡ none)
  unfolding run step on_submit on_reserved on_settled on_answer saved effect clear_draft
      get_saved_draft order_of line clear_cart
  run-placed s is_rejected fresh quiet valid =
      rw (fresh, quiet, valid) (refl, refl, refl, refl, refl, read-erased _, refl)

  -- No order is placed yet, nothing waits, the page has been drawn before, the form passes, and the
  -- order is refused: the calls are those of an order that is taken, and the button can be used
  -- again. The alert is the first text that is not empty of the detail of the answer, the message of
  -- the error and a fixed one, but for a rejection with `null` there is none. The form, its saved
  -- draft, the cart and the notifications are as they were, and a new timer waits to save the form.
  pub run-refused :
      (s : Checkout N) (is_rejected : Bool) (e : Rejection)
      → s.success ≡ false
      → s.loading ≡ false
      → passes units s.form ≡ true
      → s.autosave.initial_mount ≡ false
      → let after =
          run units inherited new_id now
            (submit ∷ reserve_settled is_rejected ∷ order_settled (some e) ∷ [])
            s in
        (after.1 ≡ expected_calls s.form s.cart.items)
        × (after.0 ≡ record s {
          autosave = record s.autosave { timer = some s.form };
          error = expected_alert e;
          phase = idle;
          loading = false;
        })
  unfolding run step on_submit on_reserved on_settled on_answer saved effect order_of line
  run-refused s is_rejected e fresh quiet valid mounted =
      rw⁻¹ (failure-expected_alert e) (rw (fresh, quiet, valid, mounted) (refl, refl))

  saved-IsSound : (s : Checkout N) → IsSound s → IsSound (saved s)
  unfolding saved effect get_saved_draft
  saved-IsSound s (unplaced fresh busy) = unplaced fresh busy
  saved-IsSound s (closed success quiet waits draft off) =
      closed success quiet waits (rw success draft) (rw success refl)

  timer-IsSound :
      (fits : Bool) (s : Checkout N)
      → IsSound s
      → IsSound (record s { autosave = on_timer fits s.autosave })
  unfolding on_timer fired
  timer-IsSound fits s (unplaced fresh busy) = unplaced fresh busy
  timer-IsSound fits s (closed success quiet waits draft off) =
      closed success quiet waits (ap (λ t. get_saved_draft (fired fits t s.autosave)) off ∙ draft)
        (ap (λ t. (fired fits t s.autosave).timer) off ∙ off)

  -- A handler that waits belongs to a page whose order is not placed.
  waiting-unplaced : (s : Checkout N) → is_busy s.phase ≡ true → IsSound s → s.success ≡ false
  unfolding is_busy
  waiting-unplaced s busy (unplaced fresh loads) = fresh
  waiting-unplaced s busy (closed success quiet waits draft off) =
      let clash : true ≡ false = sym busy ∙ ap is_busy waits in (cc)

  reserved-IsSound :
      (p : Phase N) (s : Checkout N)
      → s.phase ≡ p
      → IsSound s
      → IsSound (on_reserved units inherited p s).0
  unfolding on_reserved is_busy
  reserved-IsSound idle s at h = h
  reserved-IsSound (reserving order) s at (unplaced fresh loads) =
      unplaced fresh (loads ∙ ap is_busy at)
  reserved-IsSound (reserving order) s at (closed success quiet waits draft off) =
      let clash : true ≡ false = ap is_busy (sym at ∙ waits) in (cc)
  reserved-IsSound (ordering order) s at h = h

  settled-IsSound :
      (answer : Option Rejection) (p : Phase N) (s : Checkout N)
      → s.phase ≡ p
      → IsSound s
      → IsSound (on_settled units inherited new_id now answer p s)
  unfolding on_settled on_answer saved effect clear_draft get_saved_draft is_busy
  settled-IsSound answer idle s at h = h
  settled-IsSound answer (reserving order) s at h = h
  settled-IsSound none (ordering order) s at h =
      closed refl refl refl (read-erased s.autosave.storage) refl
  settled-IsSound (some e) (ordering order) s at h =
      unplaced (waiting-unplaced s (ap is_busy at) h) refl

  step-IsSound :
      (e : Event N) (s : Checkout N) → IsSound s → IsSound (step units inherited new_id now e s).0
  unfolding step on_submit saved is_busy
  step-IsSound (edit form) s (unplaced fresh busy) = rw fresh (unplaced refl busy)
  step-IsSound (edit form) s (closed success quiet waits draft off) =
      rw success (closed refl quiet waits draft off)
  step-IsSound rerender s h = saved-IsSound s h
  step-IsSound (timer fits) s h = timer-IsSound fits s h
  step-IsSound (cart_changed cart) s (unplaced fresh busy) = unplaced fresh busy
  step-IsSound (cart_changed cart) s (closed success quiet waits draft off) =
      closed success quiet waits draft off
  step-IsSound submit s h =
      elim (Bool-cases (s.success || s.loading || not (passes units s.form))) [
        | inl stays ↦ rw stays h
        | inr goes ↦ let fresh : s.success ≡ false = ground arith in rw goes (unplaced fresh refl)
      ]
  step-IsSound (reserve_settled is_rejected) s h = reserved-IsSound s.phase s refl h
  step-IsSound (order_settled answer) s h = settled-IsSound answer s.phase s refl h

  run-IsSound_from :
      (events : List (Event N)) (s : Checkout N)
      → IsSound s
      → IsSound (run units inherited new_id now events s).0
  unfolding run
  run-IsSound_from [] s h = h
  run-IsSound_from (e ∷ events) s h =
      run-IsSound_from events (step units inherited new_id now e s).0 (step-IsSound e s h)

  open_page-IsSound :
      (storage : Option (Option Form)) (cart : CartState N) (inbox : NotificationState)
      → IsSound (open_page storage cart inbox)
  unfolding open_page saved effect get_saved_draft read mount is_busy
  open_page-IsSound none cart inbox = unplaced refl refl
  open_page-IsSound (some none) cart inbox = unplaced refl refl
  open_page-IsSound (some (some draft)) cart inbox = unplaced refl refl

  -- Whatever happens on the page, in whatever order, from when it is opened: until the order is placed
  -- the button turns exactly as long as the handler waits; once it is placed the handler waits for
  -- nothing, no draft of the form is in the storage, and none is going to be saved.
  pub run-IsSound :
      (storage : Option (Option Form)) (cart : CartState N) (inbox : NotificationState)
      (events : List (Event N))
      → IsSound (run units inherited new_id now events (open_page storage cart inbox)).0
  run-IsSound storage cart inbox events =
      run-IsSound_from events (open_page storage cart inbox) (open_page-IsSound storage cart inbox)

  -- The browser keeps a storage that takes the draft, and no order is placed: a form that is edited and
  -- left until the timer fires is the form that the page opens with the next time.
  pub open_page-run :
      (s : Checkout N) (form : Form) (draft : Option Form) (cart : CartState N)
      (inbox : NotificationState)
      → s.success ≡ false
      → s.autosave.initial_mount ≡ false
      → s.autosave.storage ≡ some draft
      → let left = (run units inherited new_id now (edit form ∷ timer true ∷ []) s).0 in
        (open_page {N = N} left.autosave.storage cart inbox).form ≡ form
  unfolding run step saved effect on_timer fired save open_page get_saved_draft read mount
  open_page-run s form draft cart inbox fresh mounted kept = rw (fresh, mounted, kept) refl
