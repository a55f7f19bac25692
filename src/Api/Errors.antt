-- ===== src/Api/Errors.antt =====
-- frontend/src/lib/errorMapper.ts: errors as the pages show them.
use cloudscale_commerce.Prelude.{
  ℕ, ◌≡◌, ◌≢◌, refl, ◌⊎◌, inl, inr, Bool, true, false, ◌||◌, if◌then◌else◌, Option, none, some,
  String, str_eq, ◌==◌, arith, eq_iff,
}

pub record SystemError : Type 0 where
  pub code : String
  pub message : String
  pub detail : Option String
  pub status : Option ℕ

-- What a call throws: an error of axios, with the status and `data.detail` of its response where
-- there is one, or any other value; `message` is its field of that name.
pub data ApiError : Type 0 where
  axios : (status : Option ℕ) (detail : Option String) (message : Option String) → ApiError
  other : (message : Option String) → ApiError

unfoldable pub status_of : ApiError → Option ℕ
status_of (axios status detail message) = status
status_of (other message) = none

mapped : String → String → Option String → ℕ → SystemError
mapped code message detail status = record {
  code = code;
  message = message;
  detail = detail;
  status = some status;
}

-- `err?.message || "…"`
fallback : Option String → SystemError
fallback message = record {
  code = "UNKNOWN_ERROR";
  message = elim message [
    | none ↦ "An unexpected network communication error occurred."
    | some m ↦ if str_eq m "" then "An unexpected network communication error occurred." else m
  ];
  detail = none;
  status = none;
}

-- The `switch` on a status.
by_status : ℕ → Option String → Option String → SystemError
unfolding mapped fallback
by_status status detail message =
    if status == 400
    then mapped "BAD_REQUEST" "The request payload parameters are invalid or corrupted." detail
        status
    else if status == 401
    then mapped "UNAUTHORIZED" "Your login session has expired. Please sign in again." detail status
    else if status == 403
    then mapped "FORBIDDEN" "You do not have administrative privileges to perform this operation."
        detail status
    else if status == 404
    then mapped "NOT_FOUND" "The requested resource record could not be found." detail status
    else if status == 422
    then mapped "UNPROCESSABLE_ENTITY" "Field validation failed. Please check input formats." detail
        status
    else if status == 429
    then mapped "TOO_MANY_REQUESTS" "Rate limit threshold exceeded. Please retry shortly." detail
        status
    else if status == 500 || status == 502 || status == 503 || status == 504
    then mapped "SERVER_ERROR"
        "A central microservice error occurred. Our engineers have been alerted." detail status
    else fallback message

pub map_api_error : ApiError → SystemError
unfolding by_status fallback
map_api_error (axios (some status) detail message) = by_status status detail message
map_api_error (axios none detail message) = fallback message
map_api_error (other message) = fallback message

abbrev generic : String
generic = "An unexpected network communication error occurred."

-- A known status is kept with its detail under a code of its own.
pub IsKept : ℕ → Option String → SystemError → Type 0
IsKept status detail m =
    (m.status ≡ some status) × (m.detail ≡ detail) × (m.code ≢ "UNKNOWN_ERROR") × (m.message ≢ "")

-- Anything else is reported without status and detail.
pub IsGeneric : SystemError → Type 0
IsGeneric m = (m.status ≡ none) × (m.detail ≡ none) × (m.code ≡ "UNKNOWN_ERROR") × (m.message ≢ "")

-- The statuses that the source names.
pub is_known : ℕ → Bool
is_known n =
    n == 400
    || (n == 401
        || (n == 403
            || (n == 404
                || (n == 422 || (n == 429 || (n == 500 || n == 502 || n == 503 || n == 504))))))

-- What is known is kept, and what is not is generic.
pub IsMapped : Bool → ℕ → Option String → SystemError → Type 0
IsMapped known status detail m =
    (known ≡ true) × IsKept status detail m ⊎ (known ≡ false) × IsGeneric m

module _ (status : ℕ) (detail : Option String) (m : SystemError)
    (kept : IsKept status detail m) where
  -- One more case of the `switch`, before the others.
  case-IsMapped :
      (here known : Bool) (n : SystemError)
      → IsMapped known status detail n
      → IsMapped (here || known) status detail (if here then m else n)
  unfolding IsMapped
  case-IsMapped true known n h = inl (refl, kept)
  case-IsMapped false known n h = h

  default-IsMapped :
      (here : Bool) (n : SystemError)
      → IsGeneric n
      → IsMapped here status detail (if here then m else n)
  unfolding IsMapped
  default-IsMapped true n h = inl (refl, kept)
  default-IsMapped false n h = inr (refl, h)

mapped-IsKept :
    (code message : String) (detail : Option String) (status : ℕ)
    → str_eq code "UNKNOWN_ERROR" ≡ false
    → str_eq message "" ≡ false
    → IsKept status detail (mapped code message detail status)
unfolding mapped IsKept
mapped-IsKept code message detail status c m = (
  refl,
  refl,
  (λ e. ground (arith, eq_iff code "UNKNOWN_ERROR", c, e)),
  (λ e. ground (arith, eq_iff message "", m, e)),
)

fallback-IsGeneric : (message : Option String) → IsGeneric (fallback message)
unfolding fallback IsGeneric
fallback-IsGeneric none = (refl, refl, refl, λ e. ground (arith, eq_iff generic "", e))
fallback-IsGeneric (some m) =
    (refl, refl, refl, λ e. ground (arith, eq_iff generic "", eq_iff m "", e))

-- A status that the source names is kept, with the detail of the response, under a code and a
-- message of its own; any other is reported as UNKNOWN_ERROR without status and detail. No message
-- is empty.
pub map_api_error-IsMapped :
    (status : ℕ) (detail message : Option String)
    → IsMapped (is_known status) status detail (map_api_error (axios (some status) detail message))
unfolding map_api_error is_known
map_api_error-IsMapped status detail message =
    case-IsMapped status detail _ (keep _ _ refl refl) (status == 400) _ _ (
      case-IsMapped status detail _ (keep _ _ refl refl) (status == 401) _ _ (
        case-IsMapped status detail _ (keep _ _ refl refl) (status == 403) _ _ (
          case-IsMapped status detail _ (keep _ _ refl refl) (status == 404) _ _ (
            case-IsMapped status detail _ (keep _ _ refl refl) (status == 422) _ _ (
              case-IsMapped status detail _ (keep _ _ refl refl) (status == 429) _ _ (
                default-IsMapped status detail _ (keep _ _ refl refl)
                  (status == 500 || status == 502 || status == 503 || status == 504) _
                  (fallback-IsGeneric message)))))))
  where
    keep :
        (code text : String)
        → str_eq code "UNKNOWN_ERROR" ≡ false
        → str_eq text "" ≡ false
        → IsKept status detail (mapped code text detail status)
    keep code text = mapped-IsKept code text detail status
