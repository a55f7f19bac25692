-- ===== src/Socket/Steps.antt =====
-- The calls of the socket's methods, and of the callbacks that it set, as events in any order.
use cloudscale_commerce.Prelude.{ℕ, suc, ◌+◌, ◌≡◌, Option, List, [], ◌∷◌, ◌++◌, String, arith}
use cloudscale_commerce.Socket
use cloudscale_commerce.Socket.{
  ReadyState, Socket, Effect, set_heartbeat, clear_heartbeat, schedule_connect, on_open, on_message,
  handle_close_or_failure, on_heartbeat,
}

-- `lost` is `onclose` or `onerror` of the native socket with the number, which keeps the handlers that
-- `connect` set on it; `connect` is a call, or the timer of a scheduled one.
pub data Event : Type 0 where
  connect : (ready : ℕ → ReadyState) (made : Option ℕ) → Event
  opened : (timer : ℕ) → Event
  received : Option String → Event
  lost : (ws : ℕ) → Event
  heartbeat : (ready : ℕ → ReadyState) → Event
  subscribe unsubscribe : ℕ → Event
  disconnect : Event

unfoldable pub step : Event → Socket → Socket × List Effect
step (connect ready made) s = Socket.connect ready made s
step (opened timer) s = on_open timer s
step (received parsed) s = on_message parsed s
step (lost ws) s = handle_close_or_failure s
step (heartbeat ready) s = on_heartbeat ready s
step (subscribe l) s = Socket.subscribe l s
step (unsubscribe l) s = Socket.unsubscribe l s
step disconnect s = Socket.disconnect s

unfoldable pub run : List Event → Socket → Socket × List Effect
run [] s = (s, [])
run (e ∷ es) s = let (s1, now) = step e s in let (s2, later) = run es s1 in (s2, now ++ later)

-- How often a timer of the heartbeat is set, is cleared, and a connection is scheduled.
unfoldable pub sets : List Effect → ℕ
sets [] = 0
sets (set_heartbeat timer ∷ es) = suc (sets es)
sets (_ ∷ es) = sets es

unfoldable pub clears : List Effect → ℕ
clears [] = 0
clears (clear_heartbeat timer ∷ es) = suc (clears es)
clears (_ ∷ es) = clears es

unfoldable pub schedules : List Effect → ℕ
schedules [] = 0
schedules (schedule_connect delay ∷ es) = suc (schedules es)
schedules (_ ∷ es) = schedules es

pub sets-append : (es fs : List Effect) → sets (es ++ fs) ≡ sets es + sets fs
unfolding sets
sets-append [] fs = omega arith
sets-append (set_heartbeat timer ∷ es) fs = omega (arith, sets-append es fs)
sets-append (_ ∷ es) fs = sets-append es fs

pub clears-append : (es fs : List Effect) → clears (es ++ fs) ≡ clears es + clears fs
unfolding clears
clears-append [] fs = omega arith
clears-append (clear_heartbeat timer ∷ es) fs = omega (arith, clears-append es fs)
clears-append (_ ∷ es) fs = clears-append es fs

pub schedules-append : (es fs : List Effect) → schedules (es ++ fs) ≡ schedules es + schedules fs
unfolding schedules
schedules-append [] fs = omega arith
schedules-append (schedule_connect delay ∷ es) fs = omega (arith, schedules-append es fs)
schedules-append (_ ∷ es) fs = schedules-append es fs
