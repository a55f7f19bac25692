-- ===== src/Shell/Palette.antt =====
-- frontend/src/components/CommandPalette.tsx: the palette's state, its keys and what it opens.
pub mod Laws
use cloudscale_commerce.Prelude.{
  ℕ, ◌+◌, ◌-◌, ◌%◌, Bool, true, false, not, ◌&&◌, ◌||◌, if◌then◌else◌, Option, none, some, List, [],
  ◌∷◌, map, length, get_elem?, String, str_eq, ◌==◌,
}
use cloudscale_commerce.Number.{Number, one}
use cloudscale_commerce.Text.{Text, literal, text_eq}
use cloudscale_commerce.Fuzzy.{FuzzySearchResult, fuzzy_search}
use cloudscale_commerce.Stores.Search.{Searches, add_search, clear_history}

pub record CommandItem : Type 0 where
  pub name : Text
  pub path : String
  pub category : Text

abbrev pub commands : List CommandItem
commands =
    record {
      name = literal "Browse Products Catalog";
      path = "/products";
      category = literal "Navigation";
    }
    ∷ record { name = literal "Checkout Cart"; path = "/checkout"; category = literal "Navigation" }
    ∷ record {
      name = literal "Orders Transaction History";
      path = "/orders";
      category = literal "Navigation";
    }
    ∷ record {
      name = literal "Warehouse Inventory levels";
      path = "/inventory";
      category = literal "Navigation";
    }
    ∷ record { name = literal "User Account Profiles"; path = "/users"; category = literal "Admin" }
    ∷ record {
      name = literal "SaaS Systems Admin Dashboard";
      path = "/admin";
      category = literal "Admin";
    }
    ∷ []

-- `recent` is the state of the search store, which the palette writes.
pub record Palette : Type 0 where
  pub is_open : Bool
  pub query : Text
  pub active_index : ℕ
  pub recent : Searches

-- The listener of the window, for Ctrl or Meta with `k` and for Escape. `key` is in lower case.
pub on_window_key : (command : Bool) (key : String) → Palette → Palette
on_window_key command key s =
    if command && str_eq key "k"
    then record s { is_open = not s.is_open; query = []; active_index = 0 }
    else if str_eq key "escape" && s.is_open
    then record s { is_open = false }
    else s

pub on_change : Text → Palette → Palette
on_change query s = record s { query = query; active_index = 0 }

pub on_mouse_enter : ℕ → Palette → Palette
on_mouse_enter index s = record s { active_index = index }

pub handle_select_recent : Text → Palette → Palette
handle_select_recent term s = record s { query = term }

pub close : Palette → Palette
close s = record s { is_open = false }

pub clear : Palette → Palette
clear s = record s { recent = clear_history s.recent }

pub data Key : Type 0 where
  arrow_down arrow_up enter other : Key

module _ (to_lower : Text → Text) where
  -- The choice of a command: the search that is noted, the path that is opened, and the palette shut.
  pub choose : CommandItem → Palette → Palette × Option String
  choose item s = (
    record s {
      recent = add_search to_lower (if text_eq s.query [] then item.name else s.query) s.recent;
      is_open = false;
    },
    some item.path,
  )

  module _ {N : Type 0} where
    choose_active : Option (FuzzySearchResult CommandItem N) → Palette → Palette × Option String
    unfolding choose
    choose_active none s = (s, none)
    choose_active (some active) s = choose active.item s

    pressed : Key → List (FuzzySearchResult CommandItem N) → Palette → Palette × Option String
    unfolding choose_active
    pressed arrow_down found s =
        (record s { active_index = (s.active_index + 1) % length found }, none)
    pressed arrow_up found s =
        (record s { active_index = (s.active_index + length found - 1) % length found }, none)
    pressed enter found s = choose_active (get_elem? found s.active_index) s
    pressed other found s = (s, none)

  module _ (N : Type 0) ⦃num : Number N⦄ where
    -- `filteredCommands`
    unfoldable pub filtered_commands : Text → List (FuzzySearchResult CommandItem N)
    filtered_commands query =
        if text_eq query []
        then map (λ c. record { item = c; score = one }) commands
        else fuzzy_search to_lower commands query (λ cmd. cmd.name ∷ cmd.category ∷ [])

    -- `handleKeyDown`, with the path that it opens.
    pub handle_key_down : Key → Palette → Palette × Option String
    unfolding pressed
    handle_key_down key s =
        let found = filtered_commands s.query in
        if length found == 0 then (s, none) else pressed key found s
