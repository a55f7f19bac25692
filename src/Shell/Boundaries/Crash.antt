-- ===== src/Shell/Boundaries/Crash.antt =====
-- frontend/src/components/ErrorBoundary.tsx.
use cloudscale_commerce.Prelude.{
  ℕ, ◌+◌, Bool, true, false, not, if◌then◌else◌, Option, none, some, String, ltb, leb,
}
use cloudscale_commerce.Shell.Boundaries.{View, children, fallback, alert, message_or}

pub record State : Type 0 where
  pub has_error : Bool
  pub error : Option String
  pub error_count : ℕ

pub initial : State
initial = record { has_error = false; error = none; error_count = 0 }

-- `getDerivedStateFromError`, and `componentDidCatch` after it. The count that is logged stands
-- beside the state.
pub caught : String → State → State × ℕ
caught error s = (
  record { has_error = true; error = some error; error_count = s.error_count + 1 },
  s.error_count + 1,
)

pub handle_retry_in_place : State → State
handle_retry_in_place s = record s { has_error = false; error = none }

pub handle_full_reload : State → State
handle_full_reload s = record { has_error = false; error = none; error_count = 0 }

pub render : (has_fallback : Bool) → State → View
unfolding message_or
render has_fallback s =
    if not s.has_error
    then children
    else if has_fallback
    then fallback
    else alert (message_or none s.error) (ltb s.error_count 3) true (leb 3 s.error_count)
