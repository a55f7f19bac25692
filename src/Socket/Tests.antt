-- ===== src/Socket/Tests.antt =====
-- The theorems about the socket at concrete runs.
use cloudscale_commerce.Prelude.{ℕ, ◌+◌, ◌≡◌, refl, none, some, List, [], ◌∷◌, arith}
use cloudscale_commerce.Socket
use cloudscale_commerce.Socket.{ReadyState, ConnectionStatus, Socket, initial}
use cloudscale_commerce.Socket.Steps.{Event, run, schedules}
use cloudscale_commerce.Socket.Losses.{losses, closes, losses-schedules, disconnect-lost_schedules}

abbrev fresh : ℕ → ReadyState
fresh ws = ReadyState.connecting

abbrev calls : List Event
calls =
    Event.subscribe 7
    ∷ Event.connect fresh (some 1)
    ∷ Event.opened 11
    ∷ Event.lost 1
    ∷ Event.connect fresh none
    ∷ []

abbrev outage : List Event
outage = Event.lost 1 ∷ Event.lost 1 ∷ Event.connect fresh none ∷ []

losses-schedules_example : schedules (run (losses (λ n. 1) 2) initial).1 + 0 ≡ 2
unfolding initial
losses-schedules_example = losses-schedules (λ n. 1) 2 initial (omega arith)

abbrev connected : Socket
connected = record {
  ws = some 1;
  status = ConnectionStatus.open_status;
  reconnect_attempts = 0;
  heartbeat_timer = some 11;
  listeners = 7 ∷ [];
}

disconnect-lost_schedules_example :
    let (after, asked) = Socket.disconnect connected in
    (closes asked ≡ 1 ∷ [])
    × (after.ws ≡ none)
    × (schedules asked ≡ 0)
    × (schedules (run (Event.disconnect ∷ Event.lost 1 ∷ []) connected).1 ≡ 1)
disconnect-lost_schedules_example = disconnect-lost_schedules connected 1 refl (omega arith)
