-- ===== src/Ui/Tooltip.antt =====
-- frontend/src/components/ui/Tooltip.tsx: the timer that shows the text, of which the component keeps
-- the last handle only; and the state of frontend/src/components/ui/Popover.tsx, which needs no timer.
use cloudscale_commerce.Prelude.{
  ℕ, suc, ◌≡◌, refl, ap, ◌∙◌, Bool, true, false, not, if◌then◌else◌, Option, none, some, List, [],
  ◌∷◌, ◌++◌, foldl, map, filter, any, Bool-cases, inl, inr, ◌==◌, arith,
}

-- `timers` is the timers that the browser runs, `next` the handle that it gives out next.
pub record Tooltip : Type 0 where
  pub visible : Bool
  pub timeout : Option ℕ  -- `timeout.current`
  pub timers : List ℕ
  pub next : ℕ

abbrev pub mounted : Tooltip
mounted = record { visible = false; timeout = none; timers = []; next = 1 }

-- The mouse or the focus arrives, or leaves; a timer fires; the component is unmounted.
pub data Event : Type 0 where
  enter leave focus blur unmount : Event
  fire : ℕ → Event

pub is_running : ℕ → Tooltip → Bool
is_running handle t = any (λ other. other == handle) t.timers

abbrev without : ℕ → List ℕ → List ℕ
without handle timers = filter (λ other. not (other == handle)) timers

show : Tooltip → Tooltip
show t = record t { timeout = some t.next; timers = t.timers ++ t.next ∷ []; next = suc t.next }

-- `if (timeout.current) clearTimeout(timeout.current)`
clear_timeout : Option ℕ → Tooltip → Tooltip
clear_timeout none t = t
clear_timeout (some handle) t =
    if handle == 0 then t else record t { timers = without handle t.timers }

hide : Tooltip → Tooltip
unfolding clear_timeout
hide t = record (clear_timeout t.timeout t) { visible = false }

-- A handle that no timer runs under does not fire.
pub step : Tooltip → Event → Tooltip
unfolding show hide clear_timeout is_running
step t enter = show t
step t focus = show t
step t leave = hide t
step t blur = hide t
step t unmount = clear_timeout t.timeout t
step t (fire handle) =
    if is_running handle t then record t { visible = true; timers = without handle t.timers } else t

pub run : List Event → Tooltip → Tooltip
unfolding step
run events t = foldl step t events

-- The component that is used by the mouse or by the keys alone: someone comes, timers fire, and leaves.
pub record Visit : Type 0 where
  pub by_keys : Bool
  pub fired : List ℕ

pub events_of : Visit → List Event
events_of v =
    (if v.by_keys then focus else enter)
    ∷ (map fire v.fired ++ (if v.by_keys then blur else leave) ∷ [])

run-append :
    (first second : List Event) (t : Tooltip) → run (first ++ second) t ≡ run second (run first t)
unfolding run
run-append [] second t = refl
run-append (e ∷ first) second t = run-append first second (step t e)

-- The one timer that may run is the one whose handle is kept.
data IsTidy (t : Tooltip) : Type 0 where
  idle : t.timers ≡ [] → (t.next == 0) ≡ false → IsTidy t
  waiting :
      (handle : ℕ)
      → t.timers ≡ handle ∷ []
      → t.timeout ≡ some handle
      → (handle == 0) ≡ false
      → (t.next == 0) ≡ false
      → IsTidy t

show-IsTidy : (t : Tooltip) → t.timers ≡ [] → (t.next == 0) ≡ false → IsTidy (show t)
unfolding show
show-IsTidy t none_runs next = waiting t.next (rw none_runs refl) refl next (ground arith)

fire-IsTidy : (handle : ℕ) (t : Tooltip) → IsTidy t → IsTidy (step t (fire handle))
unfolding step is_running
fire-IsTidy handle t (idle none_runs next) = rw none_runs (idle refl next)
fire-IsTidy handle t (waiting kept runs keeps real next) = elim (Bool-cases (kept == handle)) [
  | inl this ↦ rw (runs, this) (idle refl next)
  | inr other ↦ rw (runs, other) (waiting kept refl keeps real next)
]

fires-IsTidy : (fired : List ℕ) (t : Tooltip) → IsTidy t → IsTidy (run (map fire fired) t)
unfolding run
fires-IsTidy [] t h = h
fires-IsTidy (handle ∷ fired) t h =
    fires-IsTidy fired (step t (fire handle)) (fire-IsTidy handle t h)

-- Nothing runs and nothing shows.
abbrev pub IsOver : Tooltip → Type 0
IsOver t = (t.timers ≡ []) × (t.visible ≡ false) × ((t.next == 0) ≡ false)

clear_timeout-IsTidy :
    (kept : Option ℕ) (t : Tooltip)
    → t.timeout ≡ kept
    → IsTidy t
    → ((clear_timeout kept t).timers ≡ []) × (((clear_timeout kept t).next == 0) ≡ false)
unfolding clear_timeout
clear_timeout-IsTidy none t at (idle none_runs next) = (none_runs, next)
clear_timeout-IsTidy none t at (waiting handle runs keeps real next) = cc
clear_timeout-IsTidy (some kept) t at (idle none_runs next) = elim (Bool-cases (kept == 0)) [
  | inl zero_kept ↦ rw zero_kept (none_runs, next)
  | inr real ↦ rw (real, none_runs) (refl, next)
]
clear_timeout-IsTidy (some kept) t at (waiting handle runs keeps real next) =
    let same : kept ≡ handle = cc in
    let gone : (handle == handle) ≡ true = ground arith in rw (same, real, runs, gone) (refl, next)

hide-IsOver : (t : Tooltip) → IsTidy t → IsOver (hide t)
unfolding hide
hide-IsOver t h =
    let (timers, next) = clear_timeout-IsTidy t.timeout t refl h in (timers, refl, next)

visit-IsOver : (v : Visit) (t : Tooltip) → IsOver t → IsOver (run (events_of v) t)
unfolding events_of run step
visit-IsOver v t (none_runs, unseen, next) = elim (Bool-cases v.by_keys) [
  | inl keys ↦ rw keys (
      rw (run-append (map fire v.fired) (blur ∷ []) (show t)) (
        hide-IsOver (run (map fire v.fired) (show t))
          (fires-IsTidy v.fired (show t) (show-IsTidy t none_runs next))))
  | inr mouse ↦ rw mouse (
      rw (run-append (map fire v.fired) (leave ∷ []) (show t)) (
        hide-IsOver (run (map fire v.fired) (show t))
          (fires-IsTidy v.fired (show t) (show-IsTidy t none_runs next))))
]

visits-IsOver :
    (visits : List Visit) (t : Tooltip)
    → IsOver t
    → IsOver (foldl (λ t v. run (events_of v) t) t visits)
visits-IsOver [] t h = h
visits-IsOver (v ∷ visits) t h = visits-IsOver visits (run (events_of v) t) (visit-IsOver v t h)

-- Visits one after the other, each by the mouse alone or by the keys alone, and whichever timers fire
-- in the meantime: after each of them no timer runs and the text does not show.
pub run-IsOver : (visits : List Visit) → IsOver (foldl (λ t v. run (events_of v) t) mounted visits)
run-IsOver visits = visits-IsOver visits mounted (refl, refl, ground arith)

-- The mouse and the focus arrive one after the other where no timer runs, as at a click, and both leave.
-- The first timer has been lost, and when it fires the text shows, with no one there.
pub run-lost :
    (visible : Bool) (timeout : Option ℕ) (next : ℕ)
    → let t : Tooltip = record { visible = visible; timeout = timeout; timers = []; next = next } in
      (run (enter ∷ focus ∷ leave ∷ blur ∷ fire next ∷ []) t).visible ≡ true
unfolding run step show hide clear_timeout is_running
run-lost visible timeout next =
    let real : (suc next == 0) ≡ false = ground arith in
    let other : (next == suc next) ≡ false = ground arith in
    let this : (suc next == suc next) ≡ true = ground arith in
    let same : (next == next) ≡ true = ground arith in
    let both : Tooltip = record {
      visible = visible;
      timeout = some (suc next);
      timers = next ∷ suc next ∷ [];
      next = suc (suc next);
    } in
    let left : Tooltip = record both { visible = false; timers = next ∷ [] } in
    let once : hide both ≡ left = rw (real, other, this) refl in
    let twice : hide left ≡ left = rw (real, other) refl in
    ap (λ t. (step t (fire next)).visible) (ap hide once ∙ twice) ∙ rw same refl
