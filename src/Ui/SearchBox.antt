-- ===== src/Ui/SearchBox.antt =====
-- frontend/src/components/ui/SearchBox.tsx: the value, and the timer that delays a search. What it asks
-- of its user is a list of calls.
use cloudscale_commerce.Prelude.{Option, none, some, List, [], ◌∷◌, ◌++◌, String}

pub record SearchBox : Type 0 where
  pub internal_value : String
  pub timer : Option String

pub data Call : Type 0 where
  on_change on_search : String → Call

initial_text : Option String → String
initial_text none = ""
initial_text (some text) = text

pub mount : (controlled_value : Option String) → SearchBox
unfolding initial_text
mount controlled_value = record { internal_value = initial_text controlled_value; timer = none }

pub value : (controlled_value : Option String) → SearchBox → String
value none s = s.internal_value
value (some text) s = text

pub handle_change : String → SearchBox → SearchBox × List Call
handle_change val s = (record { internal_value = val; timer = some val }, on_change val ∷ [])

-- The search for no text at once; the timer asks for it once more.
pub clear : SearchBox → SearchBox × List Call
unfolding handle_change
clear s = let changed = handle_change "" s in (changed.0, changed.1 ++ on_search "" ∷ [])

fired : Option String → SearchBox → SearchBox × List Call
fired none s = (s, [])
fired (some val) s = (record s { timer = none }, on_search val ∷ [])

pub on_timer : SearchBox → SearchBox × List Call
unfolding fired
on_timer s = fired s.timer s

pub unmount : SearchBox → SearchBox
unmount s = record s { timer = none }
