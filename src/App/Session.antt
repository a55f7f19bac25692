-- ===== src/App/Session.antt =====
-- frontend/src/stores/authStore.ts and frontend/src/stores/tenantStore.ts as the request interceptor of
-- frontend/src/lib/api-client.ts reads them, and the guard of frontend/src/App.tsx beside it.
use Prim.Native.String
use cloudscale_commerce.Prelude.{
  ◌≡◌, refl, ap, sym, ◌∙◌, true, false, Bool-cases, inl, inr, Option, none, some, List, [], foldl,
  String, str_eq, arith,
}
use cloudscale_commerce.Api.Auth.{
  AuthState, User, Action, step, initial, IsConsistent, run-IsConsistent, set_credentials, logout,
}
use cloudscale_commerce.Api.Client.{Client, Request, on_refreshed}
use cloudscale_commerce.Api.Headers.{
  Headers, Context, header, set_header, intercept, needs_key, present,
}
use cloudscale_commerce.Api.Headers.Laws.{
  bearer, header-set_header, header-intercept_token, header-intercept_key, key_after,
}
use cloudscale_commerce.Stores.Tenant.{TenantState}
use cloudscale_commerce.Shell.Routes.{Page, visit, page, handle_logout}
use cloudscale_commerce.Shell.Routes.Laws.{IsPublic, visit-IsPublic}

-- What the interceptor reads of the two stores, and of the page and the runtime.
unfoldable pub context_of : (correlation_id new_key : String) → TenantState → AuthState → Context
context_of correlation_id new_key tenant auth = record {
  access_token = auth.access_token;
  correlation_id = correlation_id;
  active_tenant_id = tenant.active_tenant_id;
  new_key = new_key;
}

present-key_after :
    (new_key : String) (old : Option String)
    → str_eq new_key "" ≡ false
    → present (key_after true new_key old) ≡ true
unfolding present
present-key_after new_key none real = rw real refl
present-key_after new_key (some key) real = ground arith

key_after-present :
    (new_key : String) (old : Option String) → present old ≡ true → key_after true new_key old ≡ old
key_after-present new_key old known = rw known refl

module _ (to_lower : String → String) (correlation_id new_key : String) (tenant : TenantState)
    (method : Option String) where
  -- The headers with which a call leaves.
  unfoldable pub sent : AuthState → Headers → Headers
  sent auth h = intercept to_lower (context_of correlation_id new_key tenant auth) method h

  -- The headers with which it leaves again after a refresh, which has put the new token into them.
  unfoldable pub sent_again : (access_token : String) → AuthState → Headers → Headers
  unfolding sent
  sent_again access_token auth h =
      sent auth (set_header "Authorization" (String.◌++◌ "Bearer " access_token) h)

  token_of :
      (auth : AuthState)
      → IsConsistent auth
      → auth.is_authenticated ≡ true
      → (token : String) × (auth.access_token ≡ some token)
  token_of auth c on = elim (c.signed_in) [
    | inl (here, user, access, refresh) ↦ access
    | inr (off, gone) ↦ (let clash : true ≡ false = sym on ∙ off in cc)
  ]

  -- However the auth store came to its state: whoever is shown a page that is not for everybody has an
  -- access token, and a call from there carries it as a bearer token, if it is not empty.
  pub sent-visit :
      (calls : List Action) (path : String) (p : Page) (h : Headers)
      → visit (foldl step initial calls) path ≡ page p
      → (IsPublic p → ⊥)
      → (token : String) × ((foldl step initial calls).access_token ≡ some token)
        × (header "Authorization" (sent (foldl step initial calls) h)
            ≡ bearer (some token) (header "Authorization" h))
  unfolding context_of sent
  sent-visit calls path p h shown guarded =
      let auth = foldl step initial calls in
      elim (Bool-cases auth.is_authenticated) [
        | inl on ↦
            let (token, here) = token_of auth (run-IsConsistent calls) on in
            (
              token,
              here,
              header-intercept_token to_lower (context_of correlation_id new_key tenant auth) method
                    h
                  ∙ ap (λ t. bearer t (header "Authorization" h)) here,
            )
        | inr off ↦ absurd (guarded (visit-IsPublic auth path p off shown))
      ]

  -- Once the button of the layout has signed the user out, a visit shows only pages for everybody, and a
  -- new call carries no token.
  pub sent-handle_logout :
      (auth : AuthState) (path : String) (p : Page)
      → visit (handle_logout auth).0 path ≡ page p
      → IsPublic p × (header "Authorization" (sent (handle_logout auth).0 []) ≡ none)
  unfolding handle_logout logout sent context_of header
  sent-handle_logout auth path p shown = (
    visit-IsPublic (handle_logout auth).0 path p refl shown,
    header-intercept_token to_lower
        (context_of correlation_id new_key tenant (handle_logout auth).0) method [],
  )

  -- A mutating call has left with the key that the runtime made for it, or with its own, and meets an
  -- expired session. After the refresh it leaves again with the new token, which is not empty, and with
  -- the key of the first attempt, whatever token, tenant and key are drawn in the meantime.
  pub sent_again-sent :
      (c : Client) (user : User) (access_token refresh_token : String) (r : Request)
      (rest : List Request) (before : Context) (h : Headers)
      → str_eq before.new_key "" ≡ false
      → str_eq access_token "" ≡ false
      → needs_key to_lower method ≡ true
      → let auth = (on_refreshed user access_token refresh_token r rest c).0.auth in
        let first = intercept to_lower before method h in
        let again = sent_again access_token auth first in
        (header "Authorization" again ≡ some (String.◌++◌ "Bearer " access_token))
        × (header "Idempotency-Key" again ≡ header "Idempotency-Key" first)
        × (present (header "Idempotency-Key" again) ≡ true)
  unfolding sent_again sent context_of on_refreshed set_credentials
  sent_again-sent c user access_token refresh_token r rest before h real full mutating =
      let auth = (on_refreshed user access_token refresh_token r rest c).0.auth in
      let now = context_of correlation_id new_key tenant auth in
      let first = intercept to_lower before method h in
      let bearing = String.◌++◌ "Bearer " access_token in
      let known : present (header "Idempotency-Key" first) ≡ true =
        rw (header-intercept_key to_lower before method h, mutating)
          (present-key_after before.new_key (header "Idempotency-Key" h) real) in
      let kept : header "Idempotency-Key"
            (intercept to_lower now method (set_header "Authorization" bearing first))
          ≡ header "Idempotency-Key" first =
        rw
          (
            header-intercept_key to_lower now method (set_header "Authorization" bearing first),
            header-set_header "Idempotency-Key" "Authorization" bearing first,
            mutating,
          )
          (key_after-present new_key (header "Idempotency-Key" first) known) in
      (
        rw
            (
              header-intercept_token to_lower now method (set_header "Authorization" bearing first),
              full,
            )
            refl,
        kept,
        rw kept known,
      )
