-- ===== src/Pages/Login.antt =====
-- frontend/src/pages/Login.tsx: the form and the call, and what becomes of it behind the interceptor of
-- frontend/src/lib/api-client.ts. `is_email` is the test of `zod`, `units` the length of a text.
pub mod Laws
use cloudscale_commerce.Prelude.{
  ℕ, ltb, Bool, true, false, not, ◌&&◌, ◌||◌, if◌then◌else◌, Option, none, some, List, [], ◌∷◌,
  String, ◌==◌,
}
use cloudscale_commerce.Api.Auth.{AuthState, User, set_credentials}
use cloudscale_commerce.Api.Client.{Rejection, Effect, reject}
use cloudscale_commerce.Pages.Answers.{response_detail, or_else}

pub record LoginForm : Type 0 where
  pub email : String
  pub password : String

pub record Errors : Type 0 where
  pub email : Option String
  pub password : Option String

pub validate : (is_email : String → Bool) (units : String → ℕ) → LoginForm → Errors
validate is_email units form = record {
  email = if is_email form.email then none else some "Enter a valid email address";
  password =
      if ltb (units form.password) 6 then some "Password must be at least 6 characters" else none;
}

passes : Errors → Bool
passes errors = elim errors.email [
  | none ↦ elim errors.password [ none ↦ true | some message ↦ false ]
  | some message ↦ false
]

pub record Login : Type 0 where
  pub loading : Bool
  pub error : Option String

pub initial : Login
initial = record { loading = false; error = none }

-- The start of `onSubmit`, and whether the call is made; the button is off while it runs.
pub submit : (is_email : String → Bool) (units : String → ℕ) → LoginForm → Login → Login × Bool
unfolding validate passes
submit is_email units form s =
    if s.loading || not (passes (validate is_email units form))
    then (s, false)
    else (record { loading = true; error = none }, true)

-- The call succeeds: the state of the page, the session, and whether the page goes on to `/`.
pub accepted : User → (access_token refresh_token : String) → Login → AuthState → Login × AuthState
accepted user access_token refresh_token s auth =
    (record s { loading = false }, set_credentials user access_token refresh_token auth)

login_error : Rejection → Option String → Option String
login_error Rejection.null error = error
login_error e error = some (or_else (response_detail e) "Invalid email or password.")

pub refused : Rejection → Login → Login
unfolding login_error
refused e s = record { loading = false; error = login_error e s.error }

-- What the effects of the interceptor do to the page whose call has the id.
pub heard : (id : ℕ) → List Effect → Login → Login
unfolding refused
heard id [] s = s
heard id (reject i e ∷ effects) s =
    let later = heard id effects (if i == id then refused e s else s) in later
heard id (effect ∷ effects) s = heard id effects s
