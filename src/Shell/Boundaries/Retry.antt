-- ===== src/Shell/Boundaries/Retry.antt =====
-- frontend/src/components/RetryBoundary.tsx.
use mathlib.Core.Path.{subst}
use cloudscale_commerce.Prelude.{
  ℕ, sym, ◌+◌, ◌≤◌, ◌≡◌, refl, Bool, true, false, not, if◌then◌else◌, Option, none, some, List, [],
  ◌∷◌, foldl, String, ltb, arith,
}
use cloudscale_commerce.Shell.Boundaries.{View, children, fallback, alert, message_or}

-- `error` is the message of the error.
pub record State : Type 0 where
  pub has_error : Bool
  pub error : Option String
  pub retry_count : ℕ

unfoldable pub initial : State
initial = record { has_error = false; error = none; retry_count = 0 }

-- `getDerivedStateFromError`
unfoldable pub caught : String → State → State
caught error s = record s { has_error = true; error = some error }

-- `maxRetries ?? 3`
unfoldable pub limit : Option ℕ → ℕ
limit none = 3
limit (some n) = n

unfoldable pub handle_retry : (max_retries : Option ℕ) → State → State
unfolding limit
handle_retry max_retries s =
    if ltb s.retry_count (limit max_retries)
    then record { has_error = false; error = none; retry_count = s.retry_count + 1 }
    else s

pub render : (max_retries : Option ℕ) (has_fallback : Bool) → State → View
unfolding limit message_or
render max_retries has_fallback s =
    let again = ltb s.retry_count (limit max_retries) in
    if not s.has_error
    then children
    else if has_fallback
    then fallback
    else alert (message_or (some "An unexpected error occurred in this section.") s.error) again
        false (not again)

-- A component below throws, or the button is pressed.
pub data Event : Type 0 where
  thrown : (error : String) → Event
  pressed : Event

unfoldable pub step : (max_retries : Option ℕ) → State → Event → State
unfolding caught handle_retry
step max_retries s (thrown error) = caught error s
step max_retries s pressed = handle_retry max_retries s

-- The alert without a button to try again.
abbrev pub IsFinal : View → Type 0
IsFinal (alert message retry reload hint) = retry ≡ false
IsFinal _ = ⊥

-- The button is pressed as often as it has an effect.
pub recoveries : (max_retries : Option ℕ) → State → List Event → ℕ
unfolding step
recoveries max_retries s [] = 0
recoveries max_retries s (thrown error ∷ events) =
    recoveries max_retries (step max_retries s (thrown error)) events
recoveries max_retries s (pressed ∷ events) =
    (if ltb s.retry_count (limit max_retries) then 1 else 0)
    + recoveries max_retries (step max_retries s pressed) events

recoveries-le :
    (max_retries : Option ℕ) (events : List Event) (s : State)
    → s.retry_count ≤ limit max_retries
    → recoveries max_retries s events + s.retry_count ≤ limit max_retries
unfolding recoveries step caught handle_retry
recoveries-le m [] s h = omega arith
recoveries-le m (thrown error ∷ events) s h = recoveries-le m events (caught error s) h
recoveries-le m (pressed ∷ events) s h = ground (arith, recoveries-le m events (handle_retry m s))

spent-IsFinal :
    (max_retries : Option ℕ) (events : List Event) (s : State)
    → limit max_retries ≤ s.retry_count
    → s.has_error ≡ true
    → IsFinal (render max_retries false (foldl (step max_retries) s events))
unfolding step caught handle_retry render
spent-IsFinal m [] s h e = rw e (ground arith)
spent-IsFinal m (thrown error ∷ events) s h e = spent-IsFinal m events (caught error s) h refl
spent-IsFinal m (pressed ∷ events) s h e =
    let same : handle_retry m s ≡ s = ground arith in
    subst (λ t. IsFinal (render m false (foldl (step m) t events))) (sym same)
      (spent-IsFinal m events s h e)

-- A new boundary gives its components back at most as often as it allows retries. Once it has used
-- them all and its components throw again, it shows the alert without a button for good.
pub recoveries-IsFinal :
    (max_retries : Option ℕ) (before after : List Event) (error : String)
    → limit max_retries ≤ (foldl (step max_retries) initial before).retry_count
    → (recoveries max_retries initial before ≤ limit max_retries)
      × IsFinal (
          render max_retries false (
            foldl
              (step max_retries)
              (caught error (foldl (step max_retries) initial before))
              after))
unfolding initial caught
recoveries-IsFinal m before after error spent = (
  omega (arith, recoveries-le m before initial (omega arith)),
  spent-IsFinal m after (caught error (foldl (step m) initial before)) spent refl,
)
