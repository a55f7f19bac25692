-- ===== src/Socket/Bounds.antt =====
-- What bounds the socket's attempts and timers, over any sequence of events.
use cloudscale_commerce.Prelude.{All, ℕ, ◌+◌, ◌≤◌, ◌≡◌, refl, List, [], ◌∷◌, ◌++◌, arith}
use cloudscale_commerce.Socket.{
  Socket, max_reconnect_attempts, set_status, stop_heartbeat, start_heartbeat, on_open, open_status,
  set_heartbeat,
}
use cloudscale_commerce.Socket.Accounts.{
  timers, Accounts, set_status-Accounts, stop_heartbeat-Accounts, handle_close_or_failure-Accounts,
  connect-Accounts, disconnect-Accounts, on_message-Accounts, on_heartbeat-Accounts,
  subscribe-Accounts, unsubscribe-Accounts,
}
use cloudscale_commerce.Socket.Steps.{
  Event, opened, received, lost, heartbeat, step, run, sets, clears, schedules, sets-append,
  clears-append, schedules-append,
}

-- An event that opens no connection.
abbrev pub IsDown : Event → Type 0
IsDown (opened timer) = ⊥
IsDown _ = Unit

step-Accounts : (e : Event) (s : Socket) → IsDown e → Accounts s (step e s).0 (step e s).1
unfolding step sets clears schedules
step-Accounts (Event.connect ready made) s down = connect-Accounts ready made s
step-Accounts (received parsed) s down = on_message-Accounts parsed s
step-Accounts (lost ws) s down = handle_close_or_failure-Accounts s
step-Accounts (heartbeat ready) s down = on_heartbeat-Accounts ready s
step-Accounts (Event.subscribe l) s down = subscribe-Accounts l s
step-Accounts (Event.unsubscribe l) s down = unsubscribe-Accounts l s
step-Accounts Event.disconnect s down = disconnect-Accounts s
step-Accounts (opened timer) s down = absurd down

pub stop_heartbeat-attempts :
    (s : Socket) → (stop_heartbeat s).0.reconnect_attempts ≡ s.reconnect_attempts
unfolding stop_heartbeat
stop_heartbeat-attempts s = ground arith

stop_heartbeat-none : (s : Socket) → timers (stop_heartbeat s).0.heartbeat_timer ≡ 0
unfolding stop_heartbeat
stop_heartbeat-none s = ground arith

on_open-timers :
    (timer : ℕ) (s : Socket)
    → (sets (on_open timer s).1 + timers s.heartbeat_timer
        ≡ clears (on_open timer s).1 + timers (on_open timer s).0.heartbeat_timer)
      × ((on_open timer s).0.reconnect_attempts ≡ 0)
unfolding on_open start_heartbeat sets clears
on_open-timers timer s =
    let told = set_status open_status s in
    let reset = record (told.0) { reconnect_attempts = 0 } in
    let stopped = stop_heartbeat reset in
    let started = stopped.1 ++ set_heartbeat timer ∷ [] in
    let balance : sets (told.1 ++ started) + timers s.heartbeat_timer
        ≡ clears (told.1 ++ started) + 1 =
      omega (
        arith,
        (set_status-Accounts open_status s).timers_kept,
        (stop_heartbeat-Accounts reset).timers_kept,
        stop_heartbeat-none reset,
        sets-append told.1 started,
        clears-append told.1 started,
        sets-append stopped.1 (set_heartbeat timer ∷ []),
        clears-append stopped.1 (set_heartbeat timer ∷ []),
      ) in
    (balance, stop_heartbeat-attempts reset)

step-timers :
    (e : Event) (s : Socket)
    → sets (step e s).1 + timers s.heartbeat_timer
      ≡ clears (step e s).1 + timers (step e s).0.heartbeat_timer
unfolding step
step-timers (opened timer) s = (on_open-timers timer s).0
step-timers e s = (step-Accounts e s tt).timers_kept

-- In every run the timers that were set are those that were cleared and the one that is kept, if
-- one is: no timer of the heartbeat is ever forgotten.
pub run-timers :
    (events : List Event) (s : Socket)
    → sets (run events s).1 + timers s.heartbeat_timer
      ≡ clears (run events s).1 + timers (run events s).0.heartbeat_timer
unfolding run sets clears
run-timers [] s = refl
run-timers (e ∷ events) s =
    let now = step e s in
    omega (
      arith,
      step-timers e s,
      run-timers events now.0,
      sets-append now.1 (run events now.0).1,
      clears-append now.1 (run events now.0).1,
    )

step-attempts :
    (e : Event) (s : Socket)
    → s.reconnect_attempts ≤ max_reconnect_attempts
    → (step e s).0.reconnect_attempts ≤ max_reconnect_attempts
unfolding step
step-attempts (opened timer) s h = omega (arith, (on_open-timers timer s).1)
step-attempts e s h = (step-Accounts e s tt).attempts_few h

-- From a state that has counted at most the maximum of attempts, no run counts more.
pub run-attempts :
    (events : List Event) (s : Socket)
    → s.reconnect_attempts ≤ max_reconnect_attempts
    → (run events s).0.reconnect_attempts ≤ max_reconnect_attempts
unfolding run
run-attempts [] s h = h
run-attempts (e ∷ events) s h = run-attempts events (step e s).0 (step-attempts e s h)

pub run-schedules :
    (events : List Event) (s : Socket)
    → All IsDown events
    → schedules (run events s).1 + s.reconnect_attempts ≡ (run events s).0.reconnect_attempts
unfolding run schedules
run-schedules [] s down = omega arith
run-schedules (e ∷ events) s (d, down) =
    let now = step e s in
    omega (
      arith,
      (step-Accounts e s d).attempts_kept,
      run-schedules events now.0 down,
      schedules-append now.1 (run events now.0).1,
    )

-- While no connection opens, a socket that has used `n` attempts schedules at most `5 - n` more,
-- whatever is called and however often the connection is lost.
pub run-schedules_le :
    (events : List Event) (s : Socket)
    → s.reconnect_attempts ≤ max_reconnect_attempts
    → All IsDown events
    → schedules (run events s).1 + s.reconnect_attempts ≤ max_reconnect_attempts
run-schedules_le events s few down =
    omega (arith, run-schedules events s down, run-attempts events s few)
