-- ===== src/Ui/Dropdown.antt =====
-- frontend/src/components/ui/Dropdown.tsx: whether the menu is open.
use cloudscale_commerce.Prelude.{
  Bool, false, not, if◌then◌else◌, Option, none, some, String, str_eq,
}

pub record DropdownItem : Type 0 where
  pub id : String
  pub separator : Bool
  pub disabled : Bool

pub data Event : Type 0 where
  mouse_down : (inside : Bool) → Event
  key_down : String → Event
  trigger : Event
  choose : DropdownItem → Event

-- A separator is no button, and a button that is disabled takes no click. The result has the item
-- whose `onClick` is called.
choice : DropdownItem → Bool → Bool × Option String
choice item open_now =
    if item.separator
    then (open_now, none)
    else if item.disabled
    then (open_now, none)
    else (false, some item.id)

pub step : Event → (open_now : Bool) → Bool × Option String
unfolding choice
step (mouse_down inside) open_now = (if inside then open_now else false, none)
step (key_down key) open_now = (if str_eq key "Escape" then false else open_now, none)
step trigger open_now = (not open_now, none)
step (choose item) open_now = if open_now then choice item open_now else (open_now, none)
