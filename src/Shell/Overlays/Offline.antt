-- ===== src/Shell/Overlays/Offline.antt =====
-- frontend/src/components/OfflineBanner.tsx: the banner while the browser is offline, and for some
-- seconds after it came back.
use cloudscale_commerce.Prelude.{ℕ, ◌+◌, Bool, true, false, not, ◌&&◌, if◌then◌else◌, String}

-- `timers` counts the timers that were set and have not fired: none is ever cleared, since the value
-- that a listener returns goes nowhere.
pub record Banner : Type 0 where
  pub is_online : Bool
  pub show_status : Bool
  pub timers : ℕ

pub initial : (on_line : Bool) → Banner
initial on_line = record { is_online = on_line; show_status = false; timers = 0 }

pub handle_online : Banner → Banner
handle_online s = record { is_online = true; show_status = true; timers = s.timers + 1 }

pub handle_offline : Banner → Banner
handle_offline s = record s { is_online = false; show_status = true }

-- A timer of four seconds fires.
pub on_timer : Banner → Banner
on_timer s = record s { show_status = false }

pub data View : Type 0 where
  hidden : View
  restored : (title text : String) → View
  offline : (title text : String) → View

pub render : Banner → View
render s =
    if not s.show_status && s.is_online
    then hidden
    else if s.is_online
    then restored "Online Connection Restored" "All real-time actions are operational."
    else offline "Working Offline Mode" "Changes will synchronize when connection resolves."
