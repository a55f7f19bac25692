-- ===== src/Stores/Notification.antt =====
-- frontend/src/stores/notificationStore.ts: the notifications, newest first, the preferences, and
-- the listener that feeds the store from the socket.
pub mod Laws
use cloudscale_commerce.Prelude.{
  ℕ, Bool, true, false, not, ◌&&◌, if◌then◌else◌, Option, none, some, List, [], ◌∷◌, map, String,
  str_eq,
}

pub record NotificationItem : Type 0 where
  pub id : String
  pub title : String
  pub message : String
  pub category : String
  pub read : Bool
  pub timestamp : String

pub record Preferences : Type 0 where
  pub order : Bool
  pub inventory : Bool
  pub system : Bool

pub record NotificationState : Type 0 where
  pub notifications : List NotificationItem
  pub preferences : Preferences

pub data Variant : Type 0 where
  success error warning info : Variant

-- A call of `toast`.
pub record Toast : Type 0 where
  pub title : String
  pub description : String
  pub variant : Variant

-- `preferences[category]` as a test. A text that names no preference is looked up on the prototype of
-- the object: `inherited` says for which names that finds something.
pub preference : (inherited : String → Bool) → Preferences → String → Bool
preference inherited p category =
    if str_eq category "order"
    then p.order
    else if str_eq category "inventory"
    then p.inventory
    else if str_eq category "system"
    then p.system
    else inherited category

variant_of : String → Variant
variant_of category =
    if str_eq category "inventory"
    then warning
    else if str_eq category "order"
    then success
    else info

-- `new_id` and `now` are what `crypto.randomUUID` and the clock give at the call.
pub add_notification :
    (inherited : String → Bool) (new_id now : String)
    → (title message category : String) → NotificationState
    → NotificationState × Option Toast
unfolding preference variant_of
add_notification inherited new_id now title message category s =
    let new_notify : NotificationItem = record {
      id = new_id;
      title = title;
      message = message;
      category = category;
      read = false;
      timestamp = now;
    } in
    if not (preference inherited s.preferences category) then (s, none) else (
      record s { notifications = new_notify ∷ s.notifications },
      some (record { title = title; description = message; variant = variant_of category }),
    )

abbrev mark : NotificationItem → NotificationItem
mark n = record n { read = true }

-- The callback of `markAsRead`.
mark_if : String → NotificationItem → NotificationItem
mark_if id n = if str_eq n.id id then mark n else n

pub mark_as_read : String → NotificationState → NotificationState
unfolding mark_if
mark_as_read id s = record s { notifications = map (mark_if id) s.notifications }

pub mark_all_as_read : NotificationState → NotificationState
mark_all_as_read s = record s { notifications = map mark s.notifications }

pub clear_all : NotificationState → NotificationState
clear_all s = record s { notifications = [] }

pub data Category : Type 0 where
  order inventory system : Category

pub update_preference : Category → Bool → NotificationState → NotificationState
update_preference order value s = record s {
  preferences = record (s.preferences) { order = value };
}
update_preference inventory value s = record s {
  preferences = record (s.preferences) { inventory = value };
}
update_preference system value s = record s {
  preferences = record (s.preferences) { system = value };
}

-- What `socket.subscribe` hands over: the payload's fields where they are there as texts.
pub record SocketMessage : Type 0 where
  pub kind : String
  pub title : Option String
  pub message : Option String
  pub category : Option String

-- A field that is there and not the empty text.
truthy : Option String → Bool
truthy none = false
truthy (some s) = not (str_eq s "")

text_of : Option String → String
text_of none = ""
text_of (some s) = s

-- The listener: `is_open` is `status === "open"`.
pub on_socket_event :
    (inherited : String → Bool) (new_id now : String)
    → (is_open : Bool) → Option SocketMessage
    → NotificationState
    → NotificationState × Option Toast
unfolding truthy text_of
on_socket_event inherited new_id now is_open none s = (s, none)
on_socket_event inherited new_id now is_open (some m) s =
    if is_open
      && str_eq m.kind "notification"
      && truthy m.title
      && truthy m.message
      && truthy m.category
    then add_notification inherited new_id now (text_of m.title) (text_of m.message)
        (text_of m.category) s
    else (s, none)
