-- ===== src/Socket.antt =====
-- frontend/src/lib/websocket.ts: the socket that reconnects. Its listeners, the native sockets and
-- the timers are the environment: what the class asks of them is an effect, and each of their
-- callbacks is a function here.
pub mod Steps
pub mod Accounts
pub mod Bounds
pub mod Losses
mod Tests
use cloudscale_commerce.Prelude.{
  ℕ, ◌+◌, Bool, true, false, not, ◌&&◌, ◌||◌, if◌then◌else◌, Option, none, some, List, [], ◌∷◌,
  ◌++◌, ltb, ◌==◌, String,
}

pub data ConnectionStatus : Type 0 where
  connecting open_status closed : ConnectionStatus

-- `readyState` of a native socket.
pub data ReadyState : Type 0 where
  connecting opened closing closed : ReadyState

abbrev pub max_reconnect_attempts : ℕ
max_reconnect_attempts = 5

abbrev pub reconnect_interval : ℕ
reconnect_interval = 3000

abbrev pub heartbeat_interval : ℕ
heartbeat_interval = 15_000

-- A native socket is named by the order of its creation; a timer by the order of `setInterval`.
pub record Socket : Type 0 where
  pub ws : Option ℕ
  pub status : ConnectionStatus
  pub reconnect_attempts : ℕ
  pub heartbeat_timer : Option ℕ
  pub listeners : List ℕ

pub data Effect : Type 0 where
  notify : ℕ → ConnectionStatus → Option String → Effect  -- a listener is called
  open_socket close_socket send_ping : ℕ → Effect
  schedule_connect : ℕ → Effect  -- after so many milliseconds
  set_heartbeat clear_heartbeat : ℕ → Effect

pub initial : Socket
initial = record {
  ws = none;
  status = closed;
  reconnect_attempts = 0;
  heartbeat_timer = none;
  listeners = [];
}

-- `triggerListeners`
trigger_listeners : ConnectionStatus → Option String → List ℕ → List Effect
trigger_listeners status message [] = []
trigger_listeners status message (l ∷ ls) =
    notify l status message ∷ trigger_listeners status message ls

pub set_status : ConnectionStatus → Socket → Socket × List Effect
set_status status s = (record s { status = status }, trigger_listeners status none s.listeners)

pub stop_heartbeat : Socket → Socket × List Effect
stop_heartbeat s = elim (s.heartbeat_timer) [
  | none ↦ (s, [])
  | some timer ↦ (record s { heartbeat_timer = none }, clear_heartbeat timer ∷ [])
]

-- `timer` is what `setInterval` returns.
start_heartbeat : (timer : ℕ) → Socket → Socket × List Effect
start_heartbeat timer s =
    let (s1, stopped) = stop_heartbeat s in
    (record s1 { heartbeat_timer = some timer }, stopped ++ set_heartbeat timer ∷ [])

pub handle_close_or_failure : Socket → Socket × List Effect
handle_close_or_failure s =
    let (s1, told) = set_status closed s in
    let (s2, stopped) = stop_heartbeat s1 in
    let s3 = record s2 { ws = none } in
    if ltb s3.reconnect_attempts max_reconnect_attempts
    then (
      record s3 { reconnect_attempts = s3.reconnect_attempts + 1 },
      told ++ stopped ++ schedule_connect reconnect_interval ∷ [],
    )
    else (s3, told ++ stopped)

-- `this.ws && (readyState === OPEN || readyState === CONNECTING)`
is_live : (ready : ℕ → ReadyState) → Option ℕ → Bool
is_live ready none = false
is_live ready (some ws) = elim (ready ws) [
  | ReadyState.connecting ↦ true
  | opened ↦ true
  | closing ↦ false
  | ReadyState.closed ↦ false
]

-- `made` is the new native socket, or `none` if its constructor throws.
pub connect : (ready : ℕ → ReadyState) (made : Option ℕ) → Socket → Socket × List Effect
connect ready made s =
    if is_live ready s.ws
    then (s, [])
    else (let (s1, told) = set_status ConnectionStatus.connecting s in
        elim made [
          | none ↦ let (s2, failed) = handle_close_or_failure s1 in (s2, told ++ failed)
          | some ws ↦ (record s1 { ws = some ws }, told ++ open_socket ws ∷ [])
        ])

-- `ws.onopen`
pub on_open : (timer : ℕ) → Socket → Socket × List Effect
on_open timer s =
    let (s1, told) = set_status open_status s in
    let (s2, started) = start_heartbeat timer (record s1 { reconnect_attempts = 0 }) in
    (s2, told ++ started)

-- `ws.onmessage`: `parsed` is the message, or `none` if it is no JSON.
pub on_message : Option String → Socket → Socket × List Effect
on_message none s = (s, [])
on_message (some parsed) s = (s, trigger_listeners open_status (some parsed) s.listeners)

-- The callback of the heartbeat's timer.
pub on_heartbeat : (ready : ℕ → ReadyState) → Socket → Socket × List Effect
on_heartbeat ready s = elim (s.ws) [
  | none ↦ (s, [])
  | some ws ↦ elim (ready ws) [ opened ↦ (s, send_ping ws ∷ []) | _ ↦ (s, []) ]
]

-- The listeners are a `Set`: one that is there already is not added again.
member : ℕ → List ℕ → Bool
member l [] = false
member l (x ∷ ls) = x == l || member l ls

without : ℕ → List ℕ → List ℕ
without l [] = []
without l (x ∷ ls) = let rest = without l ls in if x == l then rest else x ∷ rest

pub subscribe : ℕ → Socket → Socket × List Effect
subscribe l s = (
  record s { listeners = if member l s.listeners then s.listeners else s.listeners ++ l ∷ [] },
  notify l s.status none ∷ [],
)

-- The function that `subscribe` returns.
pub unsubscribe : ℕ → Socket → Socket × List Effect
unsubscribe l s = (record s { listeners = without l s.listeners }, [])

-- The part of `disconnect` on the native socket.
close_ws : Socket → Socket × List Effect
close_ws s = elim (s.ws) [
  | none ↦ (s, [])
  | some ws ↦ (record s { ws = none }, close_socket ws ∷ [])
]

pub disconnect : Socket → Socket × List Effect
disconnect s =
    let (s1, stopped) = stop_heartbeat s in
    let (s2, closed_ws) = close_ws s1 in
    let (s3, told) = set_status closed s2 in (s3, stopped ++ closed_ws ++ told)
