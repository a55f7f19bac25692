-- ===== src/Socket/Losses.antt =====
-- Lost connections: each `onerror` and each `onclose` counts as an attempt of its own, and the
-- handlers of a socket stay set when `disconnect` closes it.
use cloudscale_commerce.Prelude.{
  ℕ, zero, suc, ◌+◌, ◌≤◌, ◌<◌, ◌≡◌, refl, ap, ◌∙◌, if◌then◌else◌, ltb, min, Option, none, some,
  List, [], ◌∷◌, ◌++◌, All, String, arith,
}
use cloudscale_commerce.Socket
use cloudscale_commerce.Socket.{
  ConnectionStatus, closed, Socket, Effect, close_socket, trigger_listeners, max_reconnect_attempts,
  set_status, stop_heartbeat, close_ws, handle_close_or_failure,
}
use cloudscale_commerce.Socket.Steps.{Event, lost, step, run, schedules, schedules-append}
use cloudscale_commerce.Socket.Bounds.{IsDown, stop_heartbeat-attempts, run-schedules}

handle_close_or_failure-attempts :
    (s : Socket)
    → (handle_close_or_failure s).0.reconnect_attempts ≡ (
        if ltb s.reconnect_attempts max_reconnect_attempts
        then s.reconnect_attempts + 1
        else s.reconnect_attempts)
unfolding handle_close_or_failure set_status
handle_close_or_failure-attempts s =
    ground (arith, stop_heartbeat-attempts (record s { status = ConnectionStatus.closed }))

disconnect-attempts :
    (s : Socket) → (Socket.disconnect s).0.reconnect_attempts ≡ s.reconnect_attempts
unfolding Socket.disconnect set_status close_ws
disconnect-attempts s = ground (arith, stop_heartbeat-attempts s)

-- Losses of the sockets that `of` names.
abbrev pub losses : (of : ℕ → ℕ) → ℕ → List Event
losses of zero = []
losses of (suc n) = lost (of n) ∷ losses of n

losses-IsDown : (of : ℕ → ℕ) (n : ℕ) → All IsDown (losses of n)
losses-IsDown of zero = tt
losses-IsDown of (suc n) = (tt, losses-IsDown of n)

losses-attempts :
    (of : ℕ → ℕ) (n : ℕ) (s : Socket)
    → s.reconnect_attempts ≤ max_reconnect_attempts
    → (run (losses of n) s).0.reconnect_attempts
      ≡ min max_reconnect_attempts (s.reconnect_attempts + n)
unfolding run step
losses-attempts of zero s few = omega arith
losses-attempts of (suc n) s few =
    let t = (handle_close_or_failure s).0 in
    ground (arith, handle_close_or_failure-attempts s, losses-attempts of n t)

-- `n` losses in a row, of whichever sockets, schedule a connection each, up to the maximum of the attempts; so a connection
-- that fails with an `error` event and a `close` event uses two attempts.
pub losses-schedules :
    (of : ℕ → ℕ) (n : ℕ) (s : Socket)
    → s.reconnect_attempts ≤ max_reconnect_attempts
    → schedules (run (losses of n) s).1 + s.reconnect_attempts
      ≡ min max_reconnect_attempts (s.reconnect_attempts + n)
losses-schedules of n s few =
    omega (arith, run-schedules (losses of n) s (losses-IsDown of n), losses-attempts of n s few)

-- The native sockets that are closed.
unfoldable pub closes : List Effect → List ℕ
closes [] = []
closes (close_socket ws ∷ es) = ws ∷ closes es
closes (_ ∷ es) = closes es

closes-append : (es fs : List Effect) → closes (es ++ fs) ≡ closes es ++ closes fs
unfolding closes
closes-append [] fs = refl
closes-append (close_socket ws ∷ es) fs = ap (λ r. ws ∷ r) (closes-append es fs)
closes-append (_ ∷ es) fs = closes-append es fs

closes-stop_heartbeat : (s : Socket) → closes (stop_heartbeat s).1 ≡ []
unfolding stop_heartbeat closes
closes-stop_heartbeat s = ground arith

stop_heartbeat-ws : (s : Socket) → (stop_heartbeat s).0.ws ≡ s.ws
unfolding stop_heartbeat
stop_heartbeat-ws s = ground arith

closes-trigger_listeners :
    (status : ConnectionStatus) (message : Option String) (listeners : List ℕ)
    → closes (trigger_listeners status message listeners) ≡ []
unfolding trigger_listeners closes
closes-trigger_listeners status message [] = refl
closes-trigger_listeners status message (l ∷ ls) = closes-trigger_listeners status message ls

close_ws-some :
    (s : Socket) (ws : ℕ)
    → s.ws ≡ some ws
    → close_ws s ≡ (record s { ws = none }, close_socket ws ∷ [])
unfolding close_ws
close_ws-some s ws held = rw held refl

disconnect-closes :
    (s : Socket) (ws : ℕ)
    → s.ws ≡ some ws
    → (closes (Socket.disconnect s).1 ≡ ws ∷ []) × ((Socket.disconnect s).0.ws ≡ none)
unfolding Socket.disconnect set_status
disconnect-closes s ws held =
    let t = (stop_heartbeat s).0 in
    let at = close_ws-some t ws (stop_heartbeat-ws s ∙ held) in
    (
      rw
          (
            at,
            closes-append,
            closes-append,
            closes-stop_heartbeat s,
            closes-trigger_listeners closed none t.listeners,
          )
          (unfold closes in refl),
      rw at refl,
    )

-- The class holds a native socket, and an attempt is left. `disconnect` closes this socket and no other,
-- and lets go of it; but its handlers stay set, so its `close` event schedules a new connection, and
-- just one.
pub disconnect-lost_schedules :
    (s : Socket) (ws : ℕ)
    → s.ws ≡ some ws
    → s.reconnect_attempts < max_reconnect_attempts
    → let (after, asked) = Socket.disconnect s in
      (closes asked ≡ ws ∷ [])
      × (after.ws ≡ none)
      × (schedules asked ≡ 0)
      × (schedules (run (Event.disconnect ∷ lost ws ∷ []) s).1 ≡ 1)
unfolding run step
disconnect-lost_schedules s ws held left =
    let (closed_it, let_go) = disconnect-closes s ws held in
    let t = (Socket.disconnect s).0 in
    let counted : schedules (run (Event.disconnect ∷ lost ws ∷ []) s).1 + s.reconnect_attempts
        ≡ (handle_close_or_failure t).0.reconnect_attempts =
      run-schedules (Event.disconnect ∷ lost ws ∷ []) s (tt, (tt, tt)) in
    let quiet : schedules (run (Event.disconnect ∷ []) s).1 + s.reconnect_attempts
        ≡ t.reconnect_attempts =
      run-schedules (Event.disconnect ∷ []) s (tt, tt) in
    (
      closed_it,
      let_go,
      ground (arith, quiet, disconnect-attempts s, schedules-append (Socket.disconnect s).1 []),
      ground (arith, counted, handle_close_or_failure-attempts t, disconnect-attempts s),
    )
