-- ===== src/Shell/Layout.antt =====
-- frontend/src/layouts/AppLayout.tsx and frontend/src/stores/uiStore.ts: the side bar, the button of the
-- theme and the number on the bell.
pub mod Links
use cloudscale_commerce.Prelude.{
  ℕ, Bool, true, false, not, ltb, if◌then◌else◌, Option, none, some, List, [], ◌∷◌, map, filter,
  length, String,
}
use cloudscale_commerce.Api.Auth.{User}
use cloudscale_commerce.Stores.Theme.{Theme, Document, set_theme}
use cloudscale_commerce.Stores.Notification.{NotificationState}

pub record UiState : Type 0 where
  pub sidebar_open : Bool

pub initial : UiState
initial = record { sidebar_open = true }

pub toggle_sidebar : UiState → UiState
toggle_sidebar s = record s { sidebar_open = not s.sidebar_open }

pub set_sidebar_open : Bool → UiState → UiState
set_sidebar_open sidebar_open s = record s { sidebar_open = sidebar_open }

pub unread_count : NotificationState → ℕ
unread_count s = length (filter (λ n. not n.read) s.notifications)

other_theme : Theme → Theme
other_theme Theme.dark = Theme.light
other_theme _ = Theme.dark

-- `is_dark` is the preference of the system.
pub toggle_theme : (is_dark : Bool) → Document → Document
unfolding other_theme
toggle_theme is_dark s = set_theme is_dark (other_theme s.theme) s

-- The links of the side bar, each with its label: the one in its header first.
abbrev pub sidebar_links : List (String × String)
sidebar_links =
    ("/", "CloudScale")
    ∷ ("/dashboard", "Dashboard")
    ∷ ("/products", "Catalog")
    ∷ ("/cart", "Shopping Cart")
    ∷ ("/orders", "Orders")
    ∷ ("/inventory", "Inventory")
    ∷ ("/users", "Users")
    ∷ ("/admin", "Admin KPIs")
    ∷ ("/workspace", "Workspace")
    ∷ ("/settings", "Settings")
    ∷ []

-- The number on the bell; `shown` is the decimal text of a number.
badge : (shown : ℕ → String) → ℕ → Option String
badge shown unread =
    if ltb 0 unread then some (if ltb 9 unread then "9+" else shown unread) else none

-- What the layout draws: the links, with their labels while the side bar is open, the bell, and the
-- profile.
pub record LayoutView : Type 0 where
  pub links : List (String × Option String)
  pub bell : Option String
  pub full_name : Option String
  pub role : Option String

pub render : (shown : ℕ → String) → UiState → NotificationState → (user : Option User) → LayoutView
unfolding badge unread_count
render shown ui inbox user = record {
  links = map (λ link. (link.0, if ui.sidebar_open then some link.1 else none)) sidebar_links;
  bell = badge shown (unread_count inbox);
  full_name = elim user [ none ↦ none | some u ↦ some u.full_name ];
  role = elim user [ none ↦ none | some u ↦ some u.role ];
}
