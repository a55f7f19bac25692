-- ===== src/Api/Client/Stuck.antt =====
-- An expired session without a refresh token: the flag goes up and no handler is left to take it down.
use cloudscale_commerce.Prelude.{◌≡◌, true, List, [], ◌∷◌, ◌++◌}
use cloudscale_commerce.Api.Client.{
  Request, Effect, resend, reject, post_refresh, post_logout, Client,
}

-- The flag is up, and no handler waits for an answer.
abbrev pub IsStuck : Client → Type 0
IsStuck c = (c.is_refreshing ≡ true) × (c.refreshing ≡ [])

-- Neither a refresh nor a repeated request is among the effects.
abbrev pub IsFutile : List Effect → Type 0
IsFutile [] = Unit
IsFutile (resend r ∷ es) = ⊥
IsFutile (post_refresh token ∷ es) = ⊥
IsFutile (reject i why ∷ es) = IsFutile es
IsFutile (post_logout ∷ es) = IsFutile es

-- Every request that waits at first still waits, in its place.
abbrev pub Keeps : List Request → List Request → Type 0
Keeps old new = (more : List Request) × (new ≡ old ++ more)
