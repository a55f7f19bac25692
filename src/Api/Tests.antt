-- ===== src/Api/Tests.antt =====
-- Runs of the client, and the theorems about it at concrete requests.

use cloudscale_commerce.Prelude.{ℕ, ◌+◌, ◌≡◌, refl, true, false, none, some, List, [], ◌∷◌, String}
use cloudscale_commerce.Api.Auth
use cloudscale_commerce.Api.Auth.{User, AuthState}
use cloudscale_commerce.Api.Errors.{ApiError}
use cloudscale_commerce.Api.Headers.{Context}
use cloudscale_commerce.Api.Client.{
  Request, Client, Effect, on_error, on_refreshed, on_refresh_failed, is_unauthorized,
}
use cloudscale_commerce.Api.Client.Steps.{Run, Step, idle}
use cloudscale_commerce.Api.Client.Flight.{Inv, Run-Inv}
use cloudscale_commerce.Api.Client.Settled.{waiting, answered, owed, Run-owed}

abbrev ann : User
ann = record { id = "u1"; email = "ann@example.com"; full_name = "Ann"; role = "customer" }

abbrev session : AuthState
session = record {
  user = some ann;
  access_token = some "a1";
  refresh_token = some "r1";
  is_authenticated = true;
}

abbrev guest : AuthState
guest = record { user = none; access_token = none; refresh_token = none; is_authenticated = false }

abbrev expired : ApiError
expired = ApiError.axios (some 401) none none

abbrev request : ℕ → Request
request id = record { id = id; has_headers = true; authorization = some "Bearer a1"; retry = false }

program : Unit {0}
unfolding on_error on_refreshed on_refresh_failed is_unauthorized idle
program = tt

-- Two calls fail, the second one while the tokens are refreshed.
abbrev two_failed : Client
two_failed = record {
  is_refreshing = true;
  failed_queue = request 2 ∷ [];
  auth = session;
  refreshing = record (request 1) { retry = true } ∷ [];
}

two-Run : Run (idle session) two_failed (request 1 ∷ request 2 ∷ []) (Effect.post_refresh "r1" ∷ [])
unfolding program
two-Run =
    Run.next (Run.next Run.start (Step.errored expired (request 1)))
      (Step.errored expired (request 2))

both_sent_again :
    (on_refreshed ann "a2" "r2" (record (request 1) { retry = true }) [] two_failed).1
    ≡ Effect.resend (record (request 2) { authorization = some "Bearer a2" })
      ∷ Effect.resend (record (request 1) { retry = true; authorization = some "Bearer a2" })
      ∷ []
unfolding program
both_sent_again = refl

Run-Inv_example : Inv two_failed
Run-Inv_example = Run-Inv session two-Run

Run-owed_example :
    answered 2 (Effect.post_refresh "r1" ∷ []) + owed 2 two_failed
    ≡ waiting 2 (request 1 ∷ request 2 ∷ [])
Run-owed_example = Run-owed 2 session two-Run

-- A guest's call fails; he signs in, and another call fails.
abbrev after_guest : Client
after_guest = (on_error expired (request 1) (idle guest)).0

abbrev after_sign_in : Client
after_sign_in = (on_error expired (request 2) (record after_guest { auth = session })).0

abbrev calls : List Auth.Action
calls = Auth.credentials ann "a1" "r1" ∷ Auth.access "a2" ∷ Auth.leave ∷ []

abbrev context : Context
context = record {
  access_token = some "a1";
  correlation_id = "c1";
  active_tenant_id = "default-tenant";
  new_key = "k1";
}

abbrev lower : String → String
lower s = s
