-- ===== src/Api/Client/Settled.antt =====
-- Every request that comes in is answered once, or still waits.
use cloudscale_commerce.Prelude.{
  ℕ, ◌+◌, ◌≡◌, refl, ap, ◌∙◌, true, if◌then◌else◌, Option, none, some, List, [], ◌∷◌, ◌++◌, arith,
  String, ◌==◌,
}
use cloudscale_commerce.Api.Errors.{ApiError, map_api_error}
use cloudscale_commerce.Api.Auth.{AuthState, User}
use cloudscale_commerce.Api.Client.{
  Request, Rejection, raw, mapped, null, Effect, resend, reject, post_logout, Client, authorize,
  settle, process_queue, on_error, on_refreshed, on_refresh_failed,
}
use cloudscale_commerce.Api.Client.Steps.{
  requests, Step, Run, idle, errored, refreshed, failed, sign_in, start, next,
}

-- How many of the requests have the id.
pub waiting : ℕ → List Request → ℕ
waiting id [] = 0
waiting id (r ∷ rs) = (if r.id == id then 1 else 0) + waiting id rs

-- How many of the effects answer the request with the id: it is sent again, or rejected.
answers : ℕ → Effect → ℕ
answers id (resend r) = if r.id == id then 1 else 0
answers id (reject i why) = if i == id then 1 else 0
answers id _ = 0

pub answered : ℕ → List Effect → ℕ
answered id [] = 0
answered id (e ∷ es) = answers id e + answered id es

waiting-append :
    (id : ℕ) (rs ts : List Request) → waiting id (rs ++ ts) ≡ waiting id rs + waiting id ts
unfolding waiting
waiting-append id [] ts = omega arith
waiting-append id (r ∷ rs) ts = omega (arith, waiting-append id rs ts)

answered-append :
    (id : ℕ) (es fs : List Effect) → answered id (es ++ fs) ≡ answered id es + answered id fs
unfolding answered
answered-append id [] fs = omega arith
answered-append id (e ∷ es) fs = omega (arith, answered-append id es fs)

answers-settle :
    (id : ℕ) (why : Rejection) (token : Option String) (r : Request)
    → answers id (settle why token r) ≡ (if r.id == id then 1 else 0)
unfolding answers settle
answers-settle id why none r = refl
answers-settle id why (some token) r = ground arith

-- `processQueue` answers each request of the queue, with a token or without one.
pub answered-process_queue :
    (id : ℕ) (why : Rejection) (token : Option String) (queue : List Request)
    → answered id (process_queue why token queue) ≡ waiting id queue
unfolding answered waiting process_queue
answered-process_queue id why token [] = refl
answered-process_queue id why token (r ∷ queue) =
    omega (arith, answers-settle id why token r, answered-process_queue id why token queue)

-- All that is owed to the id, in a state.
abbrev pub owed : ℕ → Client → ℕ
owed id c = waiting id c.failed_queue + waiting id c.refreshing

owed-on_error :
    (id : ℕ) (e : ApiError) (r : Request) (c : Client)
    → answered id (on_error e r c).1 + owed id (on_error e r c).0 ≡ owed id c + waiting id (r ∷ [])
unfolding on_error answered answers waiting
owed-on_error id e r c = ground (
  arith,
  waiting-append id c.failed_queue (r ∷ []),
  waiting-append id c.refreshing (record r { retry = true } ∷ []),
)

owed-split :
    (id : ℕ) (before after : List Request) (r : Request) (all : List Request)
    → all ≡ before ++ r ∷ after
    → waiting id all ≡ waiting id (before ++ after) + waiting id (r ∷ [])
unfolding waiting
owed-split id before after r all e =
    ap (waiting id) e
    ∙ omega (arith, waiting-append id before (r ∷ after), waiting-append id before after)

answers-resend :
    (id : ℕ) (token : String) (r : Request)
    → answers id (resend (authorize token r)) ≡ waiting id (r ∷ [])
unfolding answers waiting authorize
answers-resend id token r = ground arith

owed-on_refreshed :
    (id : ℕ) (user : User) (a t : String) (r : Request) (rest : List Request) (c : Client)
    → answered id (on_refreshed user a t r rest c).1 + owed id (on_refreshed user a t r rest c).0
      ≡ waiting id c.failed_queue + waiting id (r ∷ []) + waiting id rest
unfolding on_refreshed answered waiting
owed-on_refreshed id user a t r rest c = omega (
  arith,
  answered-append id (process_queue null (some a) c.failed_queue) (resend (authorize a r) ∷ []),
  answered-process_queue id null (some a) c.failed_queue,
  answers-resend id a r,
)

owed-on_refresh_failed :
    (id : ℕ) (e : ApiError) (r : Request) (rest : List Request) (c : Client)
    → answered id (on_refresh_failed e r rest c).1 + owed id (on_refresh_failed e r rest c).0
      ≡ waiting id c.failed_queue + waiting id (r ∷ []) + waiting id rest
unfolding on_refresh_failed answered answers waiting
owed-on_refresh_failed id e r rest c = omega (
  arith,
  answered-append id (process_queue (raw e) none c.failed_queue)
      (post_logout ∷ reject r.id (mapped (map_api_error e)) ∷ []),
  answered-process_queue id (raw e) none c.failed_queue,
)

Step-owed :
    (id : ℕ) {c d : Client} {r : Option Request} {effects : List Effect}
    → Step c r d effects
    → answered id effects + owed id d ≡ owed id c + waiting id (requests r)
unfolding answered waiting
Step-owed id {c} (errored e r) = owed-on_error id e r c
Step-owed id {c} (refreshed user a t before r after q) = omega (
  arith,
  owed-split id before after r c.refreshing q,
  owed-on_refreshed id user a t r (before ++ after) c,
)
Step-owed id {c} (failed e before r after q) = omega (
  arith,
  owed-split id before after r c.refreshing q,
  owed-on_refresh_failed id e r (before ++ after) c,
)
Step-owed id {c} (sign_in user a t) = omega arith

-- In every run each request that came in was answered once or still waits, in the queue or for the
-- refresh that it asked for: none is lost, and none is answered twice.
pub Run-owed :
    (id : ℕ) (auth : AuthState) {c : Client} {seen : List Request} {done : List Effect}
    → Run (idle auth) c seen done
    → answered id done + owed id c ≡ waiting id seen
unfolding idle answered waiting
Run-owed id auth start = refl
Run-owed id auth (next {seen = seen} {done = done} {r = r} {effects = effects} run step) = omega (
  arith,
  Run-owed id auth run,
  Step-owed id step,
  answered-append id done effects,
  waiting-append id seen (requests r),
)
