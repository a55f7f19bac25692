-- ===== src/Api/Headers/Laws.antt =====
-- What each header is after the request interceptor.
use cloudscale_commerce.Prelude.{
  ◌≡◌, refl, Bool, false, not, if◌then◌else◌, Option, none, some, [], ◌∷◌, String, str_eq, eq_iff,
  arith,
}
use Prim.Native.String
use cloudscale_commerce.Api.Headers.{
  Headers, header, set_header, present, Context, get_csrf_token, needs_key, authorize, with_key,
  intercept,
}

pub header-set_header :
    (q name value : String) (h : Headers)
    → header q (set_header name value h) ≡ (if str_eq name q then some value else header q h)
unfolding header set_header
header-set_header q name value [] = refl
header-set_header q name value ((k, v) ∷ rest) =
    ground (arith, header-set_header q name value rest, eq_iff k name, eq_iff k q, eq_iff name q)

-- A key that the request carries is kept, so a repeated request has the key of the first attempt.
abbrev pub key_after : Bool → String → Option String → Option String
key_after needed new_key old =
    if needed then (if not (present old) then some new_key else old) else old

header-with_key :
    (needed : Bool) (new_key : String) (h : Headers)
    → header "Idempotency-Key" (with_key needed new_key h)
      ≡ key_after needed new_key (header "Idempotency-Key" h)
unfolding with_key
header-with_key needed new_key h =
    ground (arith, header-set_header "Idempotency-Key" "Idempotency-Key" new_key h)

header-with_key_ne :
    (q : String) (needed : Bool) (new_key : String) (h : Headers)
    → str_eq "Idempotency-Key" q ≡ false
    → header q (with_key needed new_key h) ≡ header q h
unfolding with_key
header-with_key_ne q needed new_key h other =
    ground (arith, header-set_header q "Idempotency-Key" new_key h)

header-authorize_ne :
    (q : String) (token : Option String) (h : Headers)
    → str_eq "Authorization" q ≡ false
    → header q (authorize token h) ≡ header q h
unfolding authorize
header-authorize_ne q none h other = refl
header-authorize_ne q (some token) h other =
    ground (arith, header-set_header q "Authorization" (String.◌++◌ "Bearer " token) h)

abbrev pub bearer : Option String → Option String → Option String
bearer none old = old
bearer (some token) old = if str_eq token "" then old else some (String.◌++◌ "Bearer " token)

header-authorize :
    (token : Option String) (h : Headers)
    → header "Authorization" (authorize token h) ≡ bearer token (header "Authorization" h)
unfolding authorize
header-authorize none h = refl
header-authorize (some token) h =
    ground
      (arith, header-set_header "Authorization" "Authorization" (String.◌++◌ "Bearer " token) h)

module _ (to_lower : String → String) where
  -- The `Idempotency-Key` of a request: a new one for a mutating method without one, else as it was.
  pub header-intercept_key :
      (c : Context) (method : Option String) (h : Headers)
      → header "Idempotency-Key" (intercept to_lower c method h)
        ≡ key_after (needs_key to_lower method) c.new_key (header "Idempotency-Key" h)
  unfolding intercept
  header-intercept_key c method h = rw (
    header-with_key,
    header-set_header,
    header-set_header,
    header-set_header,
    header-authorize_ne "Idempotency-Key" c.access_token h refl,
  )

  -- A request that is intercepted again, as one that is sent a second time is, keeps its key, if
  -- the key that the runtime makes is not empty.
  pub header-intercept_again :
      (c d : Context) (method : Option String) (h : Headers)
      → str_eq c.new_key "" ≡ false
      → header "Idempotency-Key" (intercept to_lower d method (intercept to_lower c method h))
        ≡ header "Idempotency-Key" (intercept to_lower c method h)
  unfolding present
  header-intercept_again c d method h real =
      rw
        (
          header-intercept_key d method (intercept to_lower c method h),
          header-intercept_key c method h,
        )
        (ground arith)

  -- Every request carries the page's correlation id, the guard token and the active tenant.
  pub header-intercept_context :
      (c : Context) (method : Option String) (h : Headers)
      → (header "X-Correlation-ID" (intercept to_lower c method h) ≡ some c.correlation_id)
        × (header "X-CSRF-Token" (intercept to_lower c method h) ≡ some get_csrf_token)
        × (header "X-Tenant-ID" (intercept to_lower c method h) ≡ some c.active_tenant_id)
  unfolding intercept
  header-intercept_context c method h = (
    rw (header-with_key_ne "X-Correlation-ID" (needs_key to_lower method) c.new_key _ refl)
        (simp header-set_header),
    rw (header-with_key_ne "X-CSRF-Token" (needs_key to_lower method) c.new_key _ refl)
        (simp header-set_header),
    rw (header-with_key_ne "X-Tenant-ID" (needs_key to_lower method) c.new_key _ refl)
        (simp header-set_header),
  )

  -- The token of a signed-in user is sent as a bearer token; without one the header stays as it was.
  pub header-intercept_token :
      (c : Context) (method : Option String) (h : Headers)
      → header "Authorization" (intercept to_lower c method h)
        ≡ bearer c.access_token (header "Authorization" h)
  unfolding intercept
  header-intercept_token c method h =
      rw (header-with_key_ne "Authorization" (needs_key to_lower method) c.new_key _ refl)
        (simp header-set_header (header-authorize c.access_token h))
