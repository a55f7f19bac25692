-- ===== src/Pages/Answers.antt =====
-- What the pages read of the error that a call of `apiClient` is rejected with.
use cloudscale_commerce.Prelude.{if◌then◌else◌, Option, none, some, String, str_eq}
use cloudscale_commerce.Api.Errors.{ApiError}
use cloudscale_commerce.Api.Client.{Rejection}

-- `err.response?.data?.detail`: the interceptor has replaced the errors but the raw ones by an object
-- that has no response.
unfoldable pub response_detail : Rejection → Option String
response_detail (Rejection.raw (ApiError.axios status detail message)) = detail
response_detail _ = none

-- `err.message`
unfoldable pub message_of : Rejection → Option String
message_of (Rejection.raw (ApiError.axios status detail message)) = message
message_of (Rejection.raw (ApiError.other message)) = message
message_of (Rejection.mapped e) = some e.message
message_of Rejection.null = none

-- `a || b` of a text that may be missing, and a text.
unfoldable pub or_else : Option String → String → String
or_else none usual = usual
or_else (some text) usual = if str_eq text "" then usual else text
