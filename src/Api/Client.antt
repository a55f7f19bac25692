-- ===== src/Api/Client.antt =====
-- frontend/src/lib/api-client.ts, the response interceptor: one refresh of the tokens at a time, and
-- the queue of the requests that wait for it. The handler is asynchronous: what stands before its
-- `await` is `on_error`, and what stands behind it is `on_refreshed` or `on_refresh_failed`.
pub mod Steps
pub mod Flight
pub mod Settled
pub mod Stuck
use cloudscale_commerce.Prelude.{
  ℕ, Bool, true, false, not, ◌&&◌, if◌then◌else◌, Option, none, some, List, [], ◌∷◌, ◌++◌, map,
  String, str_eq, ◌==◌,
}
use Prim.Native.String
use cloudscale_commerce.Api.Auth.{User, AuthState, set_credentials, logout}
use cloudscale_commerce.Api.Errors.{SystemError, ApiError, status_of, map_api_error}

-- What the interceptor reads and writes of a request. `id` tells the requests of the pages apart.
pub record Request : Type 0 where
  pub id : ℕ
  pub has_headers : Bool
  pub authorization : Option String
  pub retry : Bool  -- `_retry`

-- What a promise is rejected with: the error itself, the error as it is mapped, or `null`.
pub data Rejection : Type 0 where
  raw : ApiError → Rejection
  mapped : SystemError → Rejection
  null : Rejection

-- What the interceptor does besides writing its state.
pub data Effect : Type 0 where
  resend : Request → Effect  -- `apiClient(originalRequest)` settles the caller's promise
  reject : ℕ → Rejection → Effect  -- the promise of the request with the id is rejected
  post_refresh : String → Effect
  post_logout : Effect

-- `refreshing` is the requests whose handlers stand at their `await`.
pub record Client : Type 0 where
  pub is_refreshing : Bool
  pub failed_queue : List Request
  pub auth : AuthState
  pub refreshing : List Request

-- `originalRequest.headers.Authorization = …`
unfoldable pub authorize : String → Request → Request
authorize token r =
    if r.has_headers then record r { authorization = some (String.◌++◌ "Bearer " token) } else r

-- The two callbacks that a queued request waits with, and the loop of `processQueue`.
unfoldable pub settle : Rejection → Option String → Request → Effect
unfolding authorize
settle error none r = reject r.id error
settle error (some token) r =
    if not (str_eq token "") then resend (authorize token r) else reject r.id error

unfoldable pub process_queue : Rejection → Option String → List Request → List Effect
unfolding settle
process_queue error token queue = map (settle error token) queue

unfoldable pub is_unauthorized : ApiError → Bool
unfolding status_of
is_unauthorized e = elim (status_of e) [ none ↦ false | some status ↦ status == 401 ]

-- `if (!refreshToken)`, and the start of the refresh where there is one.
unfoldable pub start_refresh : Option String → ApiError → Request → Client → Client × List Effect
start_refresh none e r c =
    (record c { auth = logout c.auth }, post_logout ∷ reject r.id (raw e) ∷ [])
start_refresh (some token) e r c =
    if str_eq token ""
    then (record c { auth = logout c.auth }, post_logout ∷ reject r.id (raw e) ∷ [])
    else (record c { refreshing = c.refreshing ++ r ∷ [] }, post_refresh token ∷ [])

unfoldable pub on_error : ApiError → Request → Client → Client × List Effect
unfolding is_unauthorized start_refresh
on_error e r c =
    if is_unauthorized e && not r.retry
    then (if c.is_refreshing
        then (record c { failed_queue = c.failed_queue ++ r ∷ [] }, [])
        else start_refresh c.auth.refresh_token e (record r { retry = true })
            (record c { is_refreshing = true }))
    else (c, reject r.id (mapped (map_api_error e)) ∷ [])

-- The answer of the refresh, for the request `r` that asked; `rest` is the other handlers at their
-- `await`.
unfoldable pub on_refreshed :
    (user : User) (access_token refresh_token : String)
    → Request
    → (rest : List Request) → Client
    → Client × List Effect
unfolding process_queue
on_refreshed user access_token refresh_token r rest c = (
  record c {
    auth = set_credentials user access_token refresh_token c.auth;
    is_refreshing = false;
    failed_queue = [];
    refreshing = rest;
  },
  process_queue null (some access_token) c.failed_queue ++ resend (authorize access_token r) ∷ [],
)

unfoldable pub on_refresh_failed :
    ApiError → Request → (rest : List Request) → Client → Client × List Effect
unfolding process_queue
on_refresh_failed e r rest c = (
  record c { is_refreshing = false; failed_queue = []; auth = logout c.auth; refreshing = rest },
  process_queue (raw e) none c.failed_queue
      ++ post_logout ∷ reject r.id (mapped (map_api_error e)) ∷ [],
)
