-- ===== src/Api/Client/Flight.antt =====
-- One refresh at a time.
use cloudscale_commerce.Prelude.{
  suc, ◌≤◌, ◌≡◌, refl, ap, true, false, Option, List, [], ◌∷◌, ◌++◌, length, length-append, arith,
}
use cloudscale_commerce.Api.Errors.{ApiError}
use cloudscale_commerce.Api.Auth.{AuthState}
use cloudscale_commerce.Api.Client.{
  Request, Effect, Client, on_error, on_refreshed, on_refresh_failed,
}
use cloudscale_commerce.Api.Client.Steps.{
  Step, Run, idle, errored, refreshed, failed, sign_in, start, next,
}

-- While the flag is down nothing waits, and at most one handler waits for a refresh.
pub record Inv (c : Client) : Type 0 where
  pub single : length c.refreshing ≤ 1
  pub quiet : c.is_refreshing ≡ false → (c.refreshing ≡ []) × (c.failed_queue ≡ [])

-- Of one waiting handler none is left when it is answered.
rest_of_single :
    (before after : List Request) (r : Request) (all : List Request)
    → all ≡ before ++ r ∷ after
    → length all ≤ 1
    → before ++ after ≡ []
rest_of_single [] [] r all e h = refl
rest_of_single [] (x ∷ after) r all e h =
    let many : length all ≡ suc (suc (length after)) = ap length e in absurd (omega arith)
rest_of_single (x ∷ before) after r all e h =
    let many : length all ≡ suc (length (before ++ r ∷ after)) = ap length e in
    absurd (omega (arith, length-append before (r ∷ after)))

on_error-Inv : (e : ApiError) (r : Request) (c : Client) → Inv c → Inv (on_error e r c).0
unfolding on_error
on_error-Inv e r c v =
    ground (arith, v.quiet, length-append c.refreshing (record r { retry = true } ∷ []))

Step-Inv :
    {c d : Client} {r : Option Request} {effects : List Effect} → Step c r d effects → Inv c → Inv d
unfolding on_refreshed on_refresh_failed
Step-Inv {c} (errored e r) v = on_error-Inv e r c v
Step-Inv {c} (refreshed user a t before r after q) v =
    let none_left = rest_of_single before after r c.refreshing q v.single in
    record { single = rw none_left (omega arith); quiet = λ _. (none_left, refl) }
Step-Inv {c} (failed e before r after q) v =
    let none_left = rest_of_single before after r c.refreshing q v.single in
    record { single = rw none_left (omega arith); quiet = λ _. (none_left, refl) }
Step-Inv (sign_in user a t) v = record { single = v.single; quiet = v.quiet }

-- In every run of the client, whatever comes in and in whatever order the answers come, at most one
-- refresh is in flight; and while none is said to be, no request waits in the queue.
pub Run-Inv :
    (auth : AuthState) {c : Client} {seen : List Request} {done : List Effect}
    → Run (idle auth) c seen done
    → Inv c
unfolding idle
Run-Inv auth start = record { single = omega arith; quiet = λ _. (refl, refl) }
Run-Inv auth (next run step) = Step-Inv step (Run-Inv auth run)
