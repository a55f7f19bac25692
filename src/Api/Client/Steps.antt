-- ===== src/Api/Client/Steps.antt =====
-- The client among its callers: errors of calls, answers of the refresh, and sign-ins, in any order.
use cloudscale_commerce.Prelude.{◌≡◌, false, Option, none, some, List, [], ◌∷◌, ◌++◌, String}
use cloudscale_commerce.Api.Auth.{User, AuthState, set_credentials}
use cloudscale_commerce.Api.Errors.{ApiError}
use cloudscale_commerce.Api.Client.{
  Request, Effect, Client, on_error, on_refreshed, on_refresh_failed,
}

unfoldable pub idle : AuthState → Client
idle auth = record { is_refreshing = false; failed_queue = []; auth = auth; refreshing = [] }

-- A step, with what it does and the request that comes in by it, if one does. An answer reaches any
-- one of the handlers that wait for one.
pub data Step (c : Client) : Option Request → Client → List Effect → Type 0 where
  errored : (e : ApiError) (r : Request) → Step c (some r) (on_error e r c).0 (on_error e r c).1
  refreshed :
      (user : User) (access_token refresh_token : String) (before : List Request) (r : Request)
      (after : List Request)
      → c.refreshing ≡ before ++ r ∷ after
      → Step c none
          (on_refreshed user access_token refresh_token r (before ++ after) c).0
          (on_refreshed user access_token refresh_token r (before ++ after) c).1
  failed :
      (e : ApiError) (before : List Request) (r : Request) (after : List Request)
      → c.refreshing ≡ before ++ r ∷ after
      → Step c none
          (on_refresh_failed e r (before ++ after) c).0
          (on_refresh_failed e r (before ++ after) c).1
  sign_in :
      (user : User) (access_token refresh_token : String)
      → Step c none (record c { auth = set_credentials user access_token refresh_token c.auth }) []

abbrev pub requests : Option Request → List Request
requests none = []
requests (some r) = r ∷ []

-- A run from `s`, with the requests that came in and the effects, in their order.
pub data Run (s : Client) : Client → List Request → List Effect → Type 0 where
  start : Run s s [] []
  next :
      {c d : Client} {seen : List Request} {done : List Effect} {r : Option Request}
      {effects : List Effect}
      → Run s c seen done
      → Step c r d effects
      → Run s d (seen ++ requests r) (done ++ effects)
