-- ===== src/Stores/Theme.antt =====
-- frontend/src/stores/themeStore.ts: the theme, and the classes of the document's root element.
use cloudscale_commerce.Prelude.{
  ◌≡◌, Bool, false, not, ◌||◌, if◌then◌else◌, List, [], ◌∷◌, ◌++◌, filter, any, String, str_eq,
  arith, eq_iff,
}

pub data Theme : Type 0 where
  light dark system : Theme

-- `classList.add` and `remove` keep the order, and never hold a class twice.
pub has_class : String → List String → Bool
has_class c classes = any (λ x. str_eq x c) classes

add_class : String → List String → List String
unfolding has_class
add_class c classes = if has_class c classes then classes else classes ++ c ∷ []

remove_class : String → List String → List String
remove_class c classes = filter (λ x. not (str_eq x c)) classes

pub record Document : Type 0 where
  pub theme : Theme
  pub classes : List String

-- `prefers_dark` is what `matchMedia("(prefers-color-scheme: dark)")` answers.
unfoldable pub class_of : (prefers_dark : Bool) → Theme → String
class_of prefers_dark light = "light"
class_of prefers_dark dark = "dark"
class_of prefers_dark system = if prefers_dark then "dark" else "light"

pub apply_theme : (prefers_dark : Bool) → Document → Document
apply_theme prefers_dark d = record d {
  classes =
      add_class (class_of prefers_dark d.theme)
        (remove_class "dark" (remove_class "light" d.classes));
}

pub set_theme : (prefers_dark : Bool) → Theme → Document → Document
unfolding apply_theme
set_theme prefers_dark theme d = apply_theme prefers_dark (record d { theme = theme })

has_class-add_class :
    (q c : String) (classes : List String)
    → has_class q (add_class c classes) ≡ (str_eq c q || has_class q classes)
unfolding add_class
has_class-add_class q c classes = ground (arith, has_class-append q c classes, eq_iff c q)
  where
    has_class-append :
        (q c : String) (classes : List String)
        → has_class q (classes ++ c ∷ []) ≡ (str_eq c q || has_class q classes)
    has_class-append q c [] = ground arith
    has_class-append q c (x ∷ classes) = ground (arith, has_class-append q c classes)

has_class-remove_class :
    (q c : String) (classes : List String)
    → has_class q (remove_class c classes) ≡ (if str_eq c q then false else has_class q classes)
unfolding has_class remove_class
has_class-remove_class q c [] = ground arith
has_class-remove_class q c (x ∷ classes) =
    ground (arith, has_class-remove_class q c classes, eq_iff x c, eq_iff x q, eq_iff c q)

-- After `setTheme` the root has just that one of the classes `light` and `dark` that the theme, or
-- the system's preference, asks for, and every other class as before.
pub has_class-set_theme :
    (prefers_dark : Bool) (q : String) (theme : Theme) (d : Document)
    → has_class q (set_theme prefers_dark theme d).classes ≡ (
        str_eq (class_of prefers_dark theme) q
        || (if str_eq "light" q || str_eq "dark" q then false else has_class q d.classes))
unfolding set_theme
has_class-set_theme prefers_dark q theme d = ground (
  arith,
  has_class-add_class q (class_of prefers_dark theme)
      (remove_class "dark" (remove_class "light" d.classes)),
  has_class-remove_class q "dark" (remove_class "light" d.classes),
  has_class-remove_class q "light" d.classes,
)
