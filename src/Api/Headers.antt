-- ===== src/Api/Headers.antt =====
-- frontend/src/lib/api-client.ts, the request interceptor: the headers that every call carries.
pub mod Laws
use cloudscale_commerce.Prelude.{
  Bool, true, false, not, ◌&&◌, ◌||◌, if◌then◌else◌, Option, none, some, List, [], ◌∷◌, String,
  str_eq,
}
use Prim.Native.String

abbrev pub Headers : Type 0
Headers = List (String × String)

-- `headers[name]`
unfoldable pub header : String → Headers → Option String
header name [] = none
header name ((k, v) ∷ rest) =
    let found = header name rest in if str_eq k name then some v else found

-- `headers[name] = value`
pub set_header : String → String → Headers → Headers
set_header name value [] = (name, value) ∷ []
set_header name value ((k, v) ∷ rest) =
    let later = set_header name value rest in
    if str_eq k name then (name, value) ∷ rest else (k, v) ∷ later

-- `if (token)` on a text that may be missing.
unfoldable pub present : Option String → Bool
present none = false
present (some s) = not (str_eq s "")

-- `mutatingMethods.includes(config.method.toLowerCase())`
unfoldable pub is_mutating : (to_lower : String → String) → String → Bool
is_mutating to_lower method =
    let m = to_lower method in
    str_eq m "post" || str_eq m "put" || str_eq m "patch" || str_eq m "delete"

-- `getCSRFToken` of frontend/src/lib/security.ts.
abbrev pub get_csrf_token : String
get_csrf_token = "cloudscale-csrf-guard-v1"

-- What the interceptor reads besides the request: the token and the tenant of the two stores, the
-- correlation id of the page, and the key that the runtime makes up.
pub record Context : Type 0 where
  pub access_token : Option String
  pub correlation_id : String
  pub active_tenant_id : String
  pub new_key : String

authorize : Option String → Headers → Headers
authorize none h = h
authorize (some token) h =
    if str_eq token "" then h else set_header "Authorization" (String.◌++◌ "Bearer " token) h

with_key : Bool → String → Headers → Headers
unfolding present
with_key needed new_key h =
    if needed
    then (if not (present (header "Idempotency-Key" h))
        then set_header "Idempotency-Key" new_key h
        else h)
    else h

module _ (to_lower : String → String) where
  -- `if (config.method && …)`; the method may be missing.
  unfoldable pub needs_key : Option String → Bool
  needs_key none = false
  needs_key (some method) = not (str_eq method "") && is_mutating to_lower method

  pub intercept : Context → Option String → Headers → Headers
  intercept c method h0 =
      let h1 = authorize c.access_token h0 in
      let h2 = set_header "X-Correlation-ID" c.correlation_id h1 in
      let h3 = set_header "X-CSRF-Token" get_csrf_token h2 in
      let h4 = set_header "X-Tenant-ID" c.active_tenant_id h3 in
      with_key (needs_key method) c.new_key h4
