-- ===== src/Ui/Dialogs.antt =====
-- frontend/src/components/ui/Modal.tsx, and Drawer.tsx beside it: the effects by which an open dialog
-- listens for Escape and keeps the page behind it from scrolling. Both write to the one document.
pub mod Laws
use cloudscale_commerce.Prelude.{
  ℕ, ◌≡◌, refl, ap, sym, ◌∙◌, Bool, true, false, not, ◌&&◌, ◌||◌, if◌then◌else◌, List, [], ◌∷◌,
  ◌++◌, foldl, filter, any, ◌==◌, String, str_eq, arith,
}

-- The dialogs whose handler listens for keys, and whether `document.body.style.overflow` is `hidden`.
pub record Document : Type 0 where
  pub listeners : List ℕ
  pub is_hidden : Bool

abbrev pub quiet : Document
quiet = record { listeners = []; is_hidden = false }

-- What rendering the page does to a dialog: the effect runs when it is mounted and when `open` or the
-- handler is new, and is cleaned up before it runs again and when the dialog is unmounted.
pub data Change : Type 0 where
  mounted : (id : ℕ) (is_open : Bool) → Change
  changed : (id : ℕ) (is_open : Bool) → Change
  unmounted : (id : ℕ) → Change

-- `document.addEventListener("keydown", handleKeyDown)`, and its removal.
listen : ℕ → List ℕ → List ℕ
listen id listeners = listeners ++ id ∷ []

forget : ℕ → List ℕ → List ℕ
forget id listeners = filter (λ other. not (other == id)) listeners

-- What the effect returns.
clean_up : ℕ → Document → Document
unfolding forget
clean_up id d = record { listeners = forget id d.listeners; is_hidden = false }

set_up : ℕ → (is_open : Bool) → Document → Document
unfolding listen
set_up id is_open d =
    if is_open then record { listeners = listen id d.listeners; is_hidden = true } else d

-- The framework cleans up all effects of a rendering before it runs the first one.
clean : Document → Change → Document
unfolding clean_up
clean d (mounted id is_open) = d
clean d (changed id is_open) = clean_up id d
clean d (unmounted id) = clean_up id d

start : Document → Change → Document
unfolding set_up
start d (mounted id is_open) = set_up id is_open d
start d (changed id is_open) = set_up id is_open d
start d (unmounted id) = d

pub render : List Change → Document → Document
unfolding clean start
render changes d = foldl start (foldl clean d changes) changes

-- `handleKeyDown` of every dialog that listens: the ids of the dialogs whose `onClose` is called.
pub press : (key : String) → Document → List ℕ
press key d = if str_eq key "Escape" then d.listeners else []

pub listens : ℕ → Document → Bool
listens id d = any (λ other. other == id) d.listeners
