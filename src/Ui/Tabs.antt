-- ===== src/Ui/Tabs.antt =====
-- frontend/src/components/ui/Tabs.tsx: which tab is shown.
use cloudscale_commerce.Prelude.{
  Bool, if◌then◌else◌, Option, none, some, List, [], ◌∷◌, String, str_eq,
}

pub record Tab : Type 0 where
  pub id : String
  pub label : String
  pub disabled : Bool

first_id : List Tab → Option String
first_id [] = none
first_id (tab ∷ tabs) = some tab.id

-- `defaultTab || tabs[0]?.id`
pub initial : (default_tab : Option String) → List Tab → Option String
unfolding first_id
initial none tabs = first_id tabs
initial (some id) tabs = if str_eq id "" then first_id tabs else some id

-- The tab that is active after a click, and the id that `onChange` is called with.
pub click : Tab → (active : Option String) → Option String × Option String
click tab active = if tab.disabled then (active, none) else (some tab.id, some tab.id)
