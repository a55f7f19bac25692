-- ===== src/Shell/Boundaries.antt =====
-- frontend/src/components/ErrorBoundary.tsx and RetryBoundary.tsx: what a boundary shows when the
-- components below it throw, and how often it may be tried again.
pub mod Retry
pub mod Crash
use cloudscale_commerce.Prelude.{
  ℕ, ◌+◌, Bool, true, false, not, if◌then◌else◌, Option, none, some, String, str_eq, ltb, leb,
}

-- What is rendered. The alert has the text of the error, a button to try again if there is one, the
-- button that reloads the page, and the hint under the buttons.
pub data View : Type 0 where
  children : View
  fallback : View
  alert : (message : Option String) (retry reload hint : Bool) → View

-- `error?.message || …`: the text of an error that is there and has one.
pub message_or : (usual : Option String) → Option String → Option String
message_or usual none = usual
message_or usual (some message) = if str_eq message "" then usual else some message
