-- ===== src/Stores/Notification/Laws.antt =====
-- The notifications under the operations of the store.
use cloudscale_commerce.Prelude.{
  ℕ, suc, ◌+◌, ◌≡◌, refl, Bool, false, if◌then◌else◌, none, some, List, [], ◌∷◌, map, String,
  str_eq, eq_iff, arith, ◌↔◌,
}
use cloudscale_commerce.Stores.Notification.{
  NotificationItem, NotificationState, SocketMessage, Category, preference, add_notification, mark,
  mark_if, mark_as_read, mark_all_as_read, update_preference, on_socket_event,
}

-- How many notifications are unread, which the pages show.
unfoldable pub unread : List NotificationItem → ℕ
unread [] = 0
unread (n ∷ ns) = if n.read then unread ns else suc (unread ns)

abbrev pub ids : List NotificationItem → List String
ids = map (λ n. n.id)

-- `addNotification` shows a toast exactly when it adds a notification: both where the preference of
-- the category is on. The new one stands first and is unread, and nothing else changes.
pub add_notification_lem :
    (inherited : String → Bool) (new_id now title message category : String) (s : NotificationState)
    → let after = add_notification inherited new_id now title message category s in
      (unread after.0.notifications ≡ (
        if preference inherited s.preferences category
        then suc (unread s.notifications)
        else unread s.notifications))
      × (ids after.0.notifications ≡ (
          if preference inherited s.preferences category
          then new_id ∷ ids s.notifications
          else ids s.notifications))
      × ((after.1 ≡ none) ↔ (preference inherited s.preferences category ≡ false))
      × (after.0.preferences ≡ s.preferences)
unfolding add_notification unread
add_notification_lem inherited new_id now title message category s = ground arith

unread-map-mark : (ns : List NotificationItem) → unread (map mark ns) ≡ 0
unfolding unread
unread-map-mark [] = refl
unread-map-mark (n ∷ ns) = unread-map-mark ns

ids-map :
    (f : NotificationItem → NotificationItem)
    → ((n : NotificationItem) → (f n).id ≡ n.id)
    → (ns : List NotificationItem) → ids (map f ns) ≡ ids ns
ids-map f h [] = refl
ids-map f h (n ∷ ns) = rw (h n, ids-map f h ns)

-- `markAllAsRead` leaves nothing unread and drops no notification.
pub mark_all_as_read_lem :
    (s : NotificationState)
    → (unread (mark_all_as_read s).notifications ≡ 0)
      × (ids (mark_all_as_read s).notifications ≡ ids s.notifications)
unfolding mark_all_as_read
mark_all_as_read_lem s = (unread-map-mark s.notifications, ids-map mark (λ n. refl) s.notifications)

-- Unread notifications with an id.
pub unread_with : String → List NotificationItem → ℕ
unread_with id [] = 0
unread_with id (n ∷ ns) =
    let rest = unread_with id ns in
    if n.read then rest else if str_eq n.id id then suc rest else rest

unread-map-mark_if :
    (id : String) (ns : List NotificationItem)
    → unread (map (mark_if id) ns) + unread_with id ns ≡ unread ns
unfolding unread unread_with mark_if
unread-map-mark_if id [] = omega arith
unread-map-mark_if id (n ∷ ns) = ground (arith, unread-map-mark_if id ns)

unread_with-map-mark_if :
    (id q : String) (ns : List NotificationItem)
    → unread_with q (map (mark_if id) ns) ≡ (if str_eq id q then 0 else unread_with q ns)
unfolding unread_with mark_if
unread_with-map-mark_if id q [] = ground arith
unread_with-map-mark_if id q (n ∷ ns) =
    ground (arith, unread_with-map-mark_if id q ns, eq_iff n.id id, eq_iff n.id q, eq_iff id q)

-- `markAsRead` reads just the notifications with the id: the unread count falls by as many as were
-- unread, those of every other id stay as they were, and no notification is dropped.
pub mark_as_read_lem :
    (id q : String) (s : NotificationState)
    → let after = (mark_as_read id s).notifications in
      (unread after + unread_with id s.notifications ≡ unread s.notifications)
      × (unread_with q after ≡ (if str_eq id q then 0 else unread_with q s.notifications))
      × (ids after ≡ ids s.notifications)
unfolding mark_as_read mark_if
mark_as_read_lem id q s = (
  unread-map-mark_if id s.notifications,
  unread_with-map-mark_if id q s.notifications,
  ids-map (mark_if id) (λ n. ground arith) s.notifications,
)

abbrev category_name : Category → String
category_name Category.order = "order"
category_name Category.inventory = "inventory"
category_name Category.system = "system"

-- A preference that is switched off stops the socket's notifications of that category: the state is
-- unchanged and no toast is shown, whatever the message holds.
pub update_preference-on_socket_event :
    (inherited : String → Bool) (new_id now : String) (is_open : Bool) (category : Category)
    (m : SocketMessage) (s : NotificationState)
    → m.category ≡ some (category_name category)
    → let off = update_preference category false s in
      on_socket_event inherited new_id now is_open (some m) off ≡ (off, none)
unfolding update_preference on_socket_event add_notification
update_preference-on_socket_event inherited new_id now is_open Category.order m s e =
    rw e (ground arith)
update_preference-on_socket_event inherited new_id now is_open Category.inventory m s e =
    rw e (ground arith)
update_preference-on_socket_event inherited new_id now is_open Category.system m s e =
    rw e (ground arith)
