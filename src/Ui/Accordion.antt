-- ===== src/Ui/Accordion.antt =====
-- frontend/src/components/ui/Accordion.tsx: which items are open.
use cloudscale_commerce.Prelude.{
  Bool, not, if◌then◌else◌, List, [], ◌∷◌, ◌++◌, any, filter, String, str_eq,
}

pub data Kind : Type 0 where
  single multiple : Kind

pub has : String → List String → Bool
has id open_items = any (str_eq id) open_items

pub toggle : Kind → String → List String → List String
unfolding has
toggle single id prev = if has id prev then [] else id ∷ []
toggle multiple id prev =
    if has id prev then filter (λ i. not (str_eq i id)) prev else prev ++ id ∷ []

-- The handler of the button of an item.
pub click : Kind → (disabled : Bool) → String → List String → List String
unfolding toggle
click kind disabled id prev = if disabled then prev else toggle kind id prev
