-- ===== src/Api.antt =====
-- frontend/src/lib/api-client.ts with what it calls: the credentials, the mapping of errors, the
-- headers of a request, and the interceptor that rotates tokens.
pub mod Auth
pub mod Errors
pub mod Headers
pub mod Client
mod Tests
