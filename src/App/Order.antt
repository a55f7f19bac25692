-- ===== src/App/Order.antt =====
-- frontend/src/pages/Checkout.tsx over frontend/src/lib/api-client.ts: what the page hears of its order
-- when the session has run out in the meantime.
use cloudscale_commerce.Prelude.{
  ℕ, ◌≡◌, refl, ap, ◌∙◌, Bool, true, false, Bool-cases, inl, inr, any, if◌then◌else◌, Option, none,
  some, List, [], ◌∷◌, ◌++◌, String, str_eq, ◌==◌, arith,
}
use cloudscale_commerce.Number.{Number, nought}
use cloudscale_commerce.Api.Auth.{User}
use cloudscale_commerce.Api.Errors.{ApiError}
use cloudscale_commerce.Api.Client.{
  Rejection, Effect, resend, reject, post_refresh, post_logout, Request, Client, is_unauthorized,
  process_queue, settle, start_refresh, on_error, on_refreshed, authorize,
}
use cloudscale_commerce.Pages.Checkout.{
  Checkout, Event, submit, reserve_settled, order_settled, passes, run,
}
use cloudscale_commerce.Pages.Checkout.Laws.{expected_calls, run-placed}

-- What the page that waits for the call with the id hears of the effects of the interceptor: that the
-- call is rejected, or, where it is sent again, the `answer` that this request has from the server.
unfoldable pub hears : {N : Type 0} → (answer : Option Rejection) → ℕ → List Effect → List (Event N)
hears answer id [] = []
hears answer id (reject i e ∷ effects) =
    let rest = hears answer id effects in if i == id then order_settled (some e) ∷ rest else rest
hears answer id (resend r ∷ effects) =
    let rest = hears answer id effects in if r.id == id then order_settled answer ∷ rest else rest
hears answer id (post_refresh token ∷ effects) = hears answer id effects
hears answer id (post_logout ∷ effects) = hears answer id effects

unfoldable pub is_queued : ℕ → List Request → Bool
is_queued id queue = any (λ q. q.id == id) queue

==_self : (n : ℕ) → (n == n) ≡ true
==_self n = ground arith

authorize-id : (token : String) (r : Request) → (authorize token r).id ≡ r.id
unfolding authorize
authorize-id token r = elim (Bool-cases r.has_headers) [
  | inl held ↦ rw held refl
  | inr bare ↦ rw bare refl
]

-- Queued requests that are sent again answer only those that wait for them.
hears-process_queue :
    (N : Type 0) (answer : Option Rejection) (id : ℕ) (token : String) (queue : List Request)
    (effects : List Effect)
    → str_eq token "" ≡ false
    → is_queued id queue ≡ false
    → hears {N = N} answer id (process_queue Rejection.null (some token) queue ++ effects)
      ≡ hears answer id effects
unfolding hears process_queue settle is_queued
hears-process_queue N answer id token [] effects full other = refl
hears-process_queue N answer id token (q ∷ queue) effects full other =
    let this : (q.id == id) ≡ false = ground arith in
    let those : is_queued id queue ≡ false = ground arith in
    rw (full, authorize-id token q, this)
      (hears-process_queue N answer id token queue effects full those)

-- The page's order is answered 401, there is a refresh token, and nobody refreshes yet.
pub record Expires (c : Client) (e : ApiError) (r : Request) (old : String) : Type 0 where
  pub still : c.is_refreshing ≡ false
  pub here : c.auth.refresh_token ≡ some old
  pub full : str_eq old "" ≡ false
  pub expired : is_unauthorized e ≡ true
  pub first : r.retry ≡ false

on_error-Expires :
    (c : Client) (e : ApiError) (r : Request) (old : String)
    → Expires c e r old
    → on_error e r c ≡ (
      record c {
        is_refreshing = true;
        refreshing = c.refreshing ++ record r { retry = true } ∷ [];
      },
      post_refresh old ∷ [],
    )
unfolding on_error start_refresh
on_error-Expires c e r old h = rw (h.expired, h.first, h.still, h.here, h.full) refl

module _ (N : Type 0) (answer : Option Rejection) (c : Client) (e : ApiError) (r : Request)
    (old : String) (rest : List Request) (h : Expires c e r old) where
  hears-on_refreshed :
      (user : User) (access_token refresh_token : String)
      → str_eq access_token "" ≡ false
      → is_queued r.id c.failed_queue ≡ false
      → let asked = on_error e r c in
        let refreshed =
          on_refreshed user access_token refresh_token (record r { retry = true }) rest asked.0 in
        hears {N = N} answer r.id (asked.1 ++ refreshed.1) ≡ order_settled answer ∷ []
  unfolding on_refreshed hears
  hears-on_refreshed user access_token refresh_token real alone =
      let again = resend (authorize access_token (record r { retry = true })) ∷ [] in
      rw (on_error-Expires c e r old h) (
        hears-process_queue N answer r.id access_token c.failed_queue again real alone
        ∙ rw (authorize-id access_token (record r { retry = true }), ==_self r.id) refl)

module _ {N : Type 0} ⦃num : Number N⦄ (units : String → ℕ) (inherited : String → Bool)
    (new_id now : String) (s : Checkout N) (is_rejected : Bool) (c : Client) (e : ApiError)
    (r : Request) (old : String) (rest : List Request) where
  -- No order is placed yet, nothing waits, the form passes, and the order, sent for the first time,
  -- is answered 401 where there is a refresh token and no refresh under way; the new token is not
  -- empty, and no other request with the id waits for it. The interceptor asks for one refresh and
  -- tells the page nothing; after the refresh it sends the order again, so that the page hears the
  -- server's answer to that, and nothing else. When this order is taken, the page has itself asked to
  -- reserve and to order the lines of the cart once, it shows that the order is placed, with no
  -- alert, and the lines and the coupon of the cart are gone.
  pub hears-placed :
      (user : User) (access_token refresh_token : String)
      → s.success ≡ false
      → s.loading ≡ false
      → passes units s.form ≡ true
      → Expires c e r old
      → str_eq access_token "" ≡ false
      → is_queued r.id c.failed_queue ≡ false
      → let asked = on_error e r c in
        let refreshed =
          on_refreshed user access_token refresh_token (record r { retry = true }) rest asked.0 in
        let heard = hears none r.id (asked.1 ++ refreshed.1) in
        let after =
          run units inherited new_id now (submit ∷ reserve_settled is_rejected ∷ heard) s in
        (asked.1 ≡ post_refresh old ∷ [])
        × (heard ≡ order_settled none ∷ [])
        × (after.1 ≡ expected_calls s.form s.cart.items)
        × (after.0.success ≡ true)
        × (after.0.error ≡ none)
        × (after.0.cart ≡ record s.cart { items = []; coupon_code = none; discount_value = nought })
  hears-placed user access_token refresh_token fresh quiet valid h real alone =
      let (calls, success, loading, error, cart, draft, timer) =
        run-placed units inherited new_id now s is_rejected fresh quiet valid in
      rw (hears-on_refreshed N none c e r old rest h user access_token refresh_token real alone)
        (ap (λ a. a.1) (on_error-Expires c e r old h), refl, calls, success, error, cart)
