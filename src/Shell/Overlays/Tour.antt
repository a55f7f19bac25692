-- ===== src/Shell/Overlays/Tour.antt =====
-- frontend/src/components/OnboardingTour.tsx: the steps of the tour, and the note in the local storage
-- that it was seen.
use cloudscale_commerce.Prelude.{
  ℕ, zero, suc, ◌+◌, ◌-◌, ◌<◌, ◌≡◌, ◌≢◌, refl, Bool, true, false, not, if◌then◌else◌, Option, none,
  some, List, [], ◌∷◌, length, get_elem?, String, str_eq, ltb, ◌==◌, arith,
}

pub record TourStep : Type 0 where
  pub target : String
  pub title : String
  pub content : String

abbrev pub tour_steps : List TourStep
tour_steps =
    record {
      target = "dashboard-link";
      title = "Real-time Metrics";
      content =
          "Welcome! This dashboard logs spending metrics, orders completed, and monthly growths.";
    }
    ∷ record {
      target = "catalog-link";
      title = "Unified Catalog";
      content = "View, filter, and buy merchandise. Add items directly to your shopping cart.";
    }
    ∷ record {
      target = "command-link";
      title = "Command Shortcuts";
      content =
          "Type Ctrl + K anywhere on the platform to search pages, inventory records, or users.";
    }
    ∷ []

-- The state of the component, and the item `cloudscale-tour-complete` of the local storage.
pub record Tour : Type 0 where
  pub step : ℕ
  pub visible : Bool
  pub completed : Option String

-- The delay of the timer that the mount sets, if it sets one.
pub mount : Tour → Option ℕ
mount s = elim s.completed [
  | none ↦ some 2_500
  | some note ↦ if str_eq note "" then some 2_500 else none
]

pub on_timer : Tour → Tour
on_timer s = record s { visible = true }

pub handle_complete : Tour → Tour
handle_complete s = record s { completed = some "true"; visible = false }

pub handle_next : Tour → Tour
unfolding handle_complete
handle_next s =
    if ltb s.step (length tour_steps - 1) then record s { step = s.step + 1 } else handle_complete s

-- What is rendered: the step, its number, the number of steps and the text of the button.
pub data View : Type 0 where
  hidden : View
  dialog : TourStep → (number total : ℕ) → (button : String) → View
  broken : View  -- a step past the last one has no title to read

step_view : ℕ → Option TourStep → View
step_view n none = broken
step_view n (some current) =
    dialog current (n + 1) (length tour_steps)
      (if n == length tour_steps - 1 then "Complete" else "Next")

pub render : Tour → View
unfolding step_view
render s = if not s.visible then hidden else step_view s.step (get_elem? tour_steps s.step)

-- The presses of the button, one after the other.
pub presses : ℕ → Tour → Tour
presses zero s = s
presses (suc n) s = presses n (handle_next s)

abbrev pub Ends : Tour → Type 0
Ends s =
    (render s ≢ View.broken)
    × (render (presses (length tour_steps - s.step) s) ≡ hidden)
    × (mount (presses (length tour_steps - s.step) s) ≡ none)

Ends-at :
    (step : ℕ) (visible : Bool) (completed : Option String)
    → visible ≡ true
    → step < length tour_steps
    → Ends (record { step = step; visible = visible; completed = completed })
unfolding presses handle_next handle_complete render mount step_view
Ends-at step false completed v h = cc
Ends-at zero true completed v h = (λ e. cc, refl, refl)
Ends-at (suc zero) true completed v h = (λ e. cc, refl, refl)
Ends-at (suc (suc zero)) true completed v h = (λ e. cc, refl, refl)
Ends-at (suc (suc (suc n))) true completed v h = absurd (omega (arith, h))

-- A visible tour at any of its steps shows that step, and ends after as many presses of its button as
-- there are steps left; it has then noted that it was seen, so that no later mount starts it.
pub tour-Ends : (s : Tour) → s.visible ≡ true → s.step < length tour_steps → Ends s
tour-Ends s v h = Ends-at s.step s.visible s.completed v h
