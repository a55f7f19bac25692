-- ===== src/Socket/Accounts.antt =====
-- What each operation of the socket keeps of its timers and its attempts.
use cloudscale_commerce.Prelude.{
  ltb, ℕ, ◌+◌, ◌≤◌, ◌≡◌, refl, Bool-cases, inl, inr, Option, none, some, List, [], ◌∷◌, ◌++◌,
  String, arith,
}
use cloudscale_commerce.Socket
use cloudscale_commerce.Socket.{
  ConnectionStatus, ReadyState, Socket, Effect, max_reconnect_attempts, initial, trigger_listeners,
  set_status, stop_heartbeat, start_heartbeat, handle_close_or_failure, is_live, on_open,
  on_message, on_heartbeat, open_socket, close_socket, close_ws, member, without, open_status,
  schedule_connect, set_heartbeat, reconnect_interval,
}
use cloudscale_commerce.Socket.Steps.{
  sets, clears, schedules, sets-append, clears-append, schedules-append,
}

-- One if there is a timer.
abbrev pub timers : Option ℕ → ℕ
timers none = 0
timers (some timer) = 1

-- Telling the listeners neither sets a timer nor schedules anything.
record Silent (es : List Effect) : Type 0 where
  no_sets : sets es ≡ 0
  no_clears : clears es ≡ 0
  no_schedules : schedules es ≡ 0

trigger_listeners-Silent :
    (status : ConnectionStatus) (message : Option String) (ls : List ℕ)
    → Silent (trigger_listeners status message ls)
unfolding trigger_listeners sets clears schedules
trigger_listeners-Silent status message [] = record {
  no_sets = refl;
  no_clears = refl;
  no_schedules = refl;
}
trigger_listeners-Silent status message (l ∷ ls) =
    let rest = trigger_listeners-Silent status message ls in
    record { no_sets = rest.no_sets; no_clears = rest.no_clears; no_schedules = rest.no_schedules }

-- What a step keeps of the timers and of the attempts.
pub record Accounts (s t : Socket) (es : List Effect) : Type 0 where
  pub timers_kept : sets es + timers s.heartbeat_timer ≡ clears es + timers t.heartbeat_timer
  pub attempts_kept : schedules es + s.reconnect_attempts ≡ t.reconnect_attempts
  pub attempts_few :
      s.reconnect_attempts ≤ max_reconnect_attempts → t.reconnect_attempts ≤ max_reconnect_attempts

pub set_status-Accounts :
    (status : ConnectionStatus) (s : Socket)
    → Accounts s (set_status status s).0 (set_status status s).1
unfolding set_status
set_status-Accounts status s =
    let quiet = trigger_listeners-Silent status none s.listeners in
    record {
      timers_kept = omega (arith, quiet.no_sets, quiet.no_clears);
      attempts_kept = omega (arith, quiet.no_schedules);
      attempts_few = λ h. h;
    }

pub stop_heartbeat-Accounts : (s : Socket) → Accounts s (stop_heartbeat s).0 (stop_heartbeat s).1
unfolding stop_heartbeat sets clears schedules
stop_heartbeat-Accounts s = ground arith

-- Steps in a row.
Accounts-trans :
    (s t u : Socket) (es fs : List Effect)
    → Accounts s t es
    → Accounts t u fs
    → Accounts s u (es ++ fs)
Accounts-trans s t u es fs a b = record {
  timers_kept = omega (arith, a.timers_kept, b.timers_kept, sets-append es fs, clears-append es fs);
  attempts_kept = omega (arith, a.attempts_kept, b.attempts_kept, schedules-append es fs);
  attempts_few = λ h. b.attempts_few (a.attempts_few h);
}

pub handle_close_or_failure-Accounts :
    (s : Socket) → Accounts s (handle_close_or_failure s).0 (handle_close_or_failure s).1
unfolding handle_close_or_failure sets clears schedules
handle_close_or_failure-Accounts s =
    elim (Bool-cases (ltb s2.reconnect_attempts max_reconnect_attempts)) [
      | inl more ↦ rw more (
          Accounts-trans s s2 _ (told.1 ++ stopped.1) (schedule_connect reconnect_interval ∷ [])
            both
            (record {
              timers_kept = refl;
              attempts_kept = omega arith;
              attempts_few = λ h. ground arith;
            }))
      | inr spent ↦ rw spent (record {
        timers_kept = both.timers_kept;
        attempts_kept = both.attempts_kept;
        attempts_few = both.attempts_few;
      })
    ]
  where
    told : Socket × List Effect
    told = set_status ConnectionStatus.closed s

    stopped : Socket × List Effect
    stopped = stop_heartbeat told.0

    s2 : Socket
    s2 = stopped.0

    both : Accounts s s2 (told.1 ++ stopped.1)
    both =
        Accounts-trans s told.0 s2 told.1 stopped.1 (set_status-Accounts ConnectionStatus.closed s)
          (stop_heartbeat-Accounts told.0)

nothing-Accounts : (s : Socket) → Accounts s s []
unfolding sets clears schedules
nothing-Accounts s = record {
  timers_kept = refl;
  attempts_kept = omega arith;
  attempts_few = λ h. h;
}

pub connect-Accounts :
    (ready : ℕ → ReadyState) (made : Option ℕ) (s : Socket)
    → Accounts s (Socket.connect ready made s).0 (Socket.connect ready made s).1
unfolding Socket.connect sets clears schedules
connect-Accounts ready made s = elim (Bool-cases (is_live ready s.ws)) [
  | inl live ↦ rw live (nothing-Accounts s)
  | inr dead ↦ rw dead (make made)
]
  where
    told : Socket × List Effect
    told = set_status ConnectionStatus.connecting s

    here : Accounts s told.0 told.1
    here = set_status-Accounts ConnectionStatus.connecting s

    make :
        (made : Option ℕ)
        → let after : Socket × List Effect = elim made [
          | none ↦
              ((handle_close_or_failure told.0).0, told.1 ++ (handle_close_or_failure told.0).1)
          | some ws ↦ (record (told.0) { ws = some ws }, told.1 ++ open_socket ws ∷ [])
        ] in
          Accounts s after.0 after.1
    make none = Accounts-trans s told.0 _ told.1 _ here (handle_close_or_failure-Accounts told.0)
    make (some ws) =
        Accounts-trans s told.0 _ told.1 (open_socket ws ∷ []) here
          (record { timers_kept = refl; attempts_kept = omega arith; attempts_few = λ h. h })

close_ws-Accounts : (s : Socket) → Accounts s (close_ws s).0 (close_ws s).1
unfolding close_ws sets clears schedules
close_ws-Accounts s = ground arith

pub disconnect-Accounts : (s : Socket) → Accounts s (Socket.disconnect s).0 (Socket.disconnect s).1
unfolding Socket.disconnect
disconnect-Accounts s =
    let stopped = stop_heartbeat s in
    let closed = close_ws stopped.0 in
    let told = set_status ConnectionStatus.closed closed.0 in
    Accounts-trans s closed.0 told.0 (stopped.1 ++ closed.1) told.1
      (Accounts-trans s stopped.0 closed.0 stopped.1 closed.1 (stop_heartbeat-Accounts s)
        (close_ws-Accounts stopped.0))
      (set_status-Accounts ConnectionStatus.closed closed.0)

pub on_message-Accounts :
    (parsed : Option String) (s : Socket)
    → Accounts s (on_message parsed s).0 (on_message parsed s).1
unfolding on_message
on_message-Accounts none s = nothing-Accounts s
on_message-Accounts (some parsed) s =
    let quiet = trigger_listeners-Silent open_status (some parsed) s.listeners in
    record {
      timers_kept = omega (arith, quiet.no_sets, quiet.no_clears);
      attempts_kept = omega (arith, quiet.no_schedules);
      attempts_few = λ h. h;
    }

pub on_heartbeat-Accounts :
    (ready : ℕ → ReadyState) (s : Socket)
    → Accounts s (on_heartbeat ready s).0 (on_heartbeat ready s).1
unfolding on_heartbeat sets clears schedules
on_heartbeat-Accounts ready s = ground arith

pub subscribe-Accounts :
    (l : ℕ) (s : Socket) → Accounts s (Socket.subscribe l s).0 (Socket.subscribe l s).1
unfolding Socket.subscribe sets clears schedules
subscribe-Accounts l s = record {
  timers_kept = refl;
  attempts_kept = omega arith;
  attempts_few = λ h. h;
}

pub unsubscribe-Accounts :
    (l : ℕ) (s : Socket) → Accounts s (Socket.unsubscribe l s).0 (Socket.unsubscribe l s).1
unfolding Socket.unsubscribe sets clears schedules
unsubscribe-Accounts l s = record {
  timers_kept = refl;
  attempts_kept = omega arith;
  attempts_few = λ h. h;
}
