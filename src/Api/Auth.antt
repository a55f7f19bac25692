-- ===== src/Api/Auth.antt =====
-- frontend/src/stores/authStore.ts: the user and the two tokens.
use cloudscale_commerce.Prelude.{
  ◌≡◌, refl, Bool, true, false, Option, none, some, List, [], ◌∷◌, foldl, String, ◌⊎◌, inl, inr,
}

pub record User : Type 0 where
  pub id : String
  pub email : String
  pub full_name : String
  pub role : String

pub record AuthState : Type 0 where
  pub user : Option User
  pub access_token : Option String
  pub refresh_token : Option String
  pub is_authenticated : Bool

unfoldable pub initial : AuthState
initial = record {
  user = none;
  access_token = none;
  refresh_token = none;
  is_authenticated = false;
}

unfoldable pub set_credentials :
    User → (access_token refresh_token : String) → AuthState → AuthState
set_credentials user access_token refresh_token s = record {
  user = some user;
  access_token = some access_token;
  refresh_token = some refresh_token;
  is_authenticated = true;
}

pub set_access_token : String → AuthState → AuthState
set_access_token token s = record s { access_token = some token }

pub set_user : User → AuthState → AuthState
set_user user s = record s { user = some user }

-- The part of `logout` that changes the store; the call of the server is an effect of the caller.
unfoldable pub logout : AuthState → AuthState
logout s = record {
  user = none;
  access_token = none;
  refresh_token = none;
  is_authenticated = false;
}

pub data Action : Type 0 where
  credentials : User → (access_token refresh_token : String) → Action
  access : String → Action
  profile : User → Action
  leave : Action

unfoldable pub step : AuthState → Action → AuthState
unfolding set_credentials set_access_token set_user logout
step s (credentials u a r) = set_credentials u a r s
step s (access token) = set_access_token token s
step s (profile u) = set_user u s
step s leave = logout s

-- Who is signed in has a user and both tokens; who is not has no token to refresh with.
pub record IsConsistent (s : AuthState) : Type 0 where
  pub signed_in :
      (s.is_authenticated ≡ true)
        × ((u : User) × (s.user ≡ some u))
        × ((a : String) × (s.access_token ≡ some a))
        × ((r : String) × (s.refresh_token ≡ some r))
      ⊎ (s.is_authenticated ≡ false) × (s.refresh_token ≡ none)

step-IsConsistent : (s : AuthState) (a : Action) → IsConsistent s → IsConsistent (step s a)
unfolding step
step-IsConsistent s (credentials u a r) c = record {
  signed_in = inl (refl, (u, refl), (a, refl), (r, refl));
}
step-IsConsistent s (access token) c = elim (c.signed_in) [
  | inl (on, u, a, r) ↦ record { signed_in = inl (on, u, (token, refl), r) }
  | inr (off, r) ↦ record { signed_in = inr (off, r) }
]
step-IsConsistent s (profile user) c = elim (c.signed_in) [
  | inl (on, u, a, r) ↦ record { signed_in = inl (on, (user, refl), a, r) }
  | inr (off, r) ↦ record { signed_in = inr (off, r) }
]
step-IsConsistent s leave c = record { signed_in = inr (refl, refl) }

foldl-IsConsistent :
    (s : AuthState) (calls : List Action) → IsConsistent s → IsConsistent (foldl step s calls)
foldl-IsConsistent s [] c = c
foldl-IsConsistent s (a ∷ calls) c = foldl-IsConsistent (step s a) calls (step-IsConsistent s a c)

-- After any calls on a new store, who is signed in has a user and both tokens, and who is not has
-- no refresh token.
pub run-IsConsistent : (calls : List Action) → IsConsistent (foldl step initial calls)
unfolding initial
run-IsConsistent calls = foldl-IsConsistent initial calls (record { signed_in = inr (refl, refl) })
