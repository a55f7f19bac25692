-- ===== src/Shell/FocusTrap.antt =====
-- frontend/src/hooks/useFocusTrap.ts: where Tab leads inside a dialog. An element is a number, and
-- `elements` is what the selectors find in the dialog, in the order of the document.
use cloudscale_commerce.Prelude.{
  ℕ, ◌≡◌, refl, ap, Bool, true, false, Bool-cases, inl, inr, if◌then◌else◌, Option, none, some,
  List, [], ◌∷◌, any, ◌==◌, arith,
}

-- The element with the focus, and the one that had it before the dialog.
pub record Focus : Type 0 where
  pub active_element : ℕ
  pub previously_focused_element : Option ℕ

-- The effect when the dialog opens.
pub trap : (elements : List ℕ) → (active_element : ℕ) → Focus
trap [] active = record { active_element = active; previously_focused_element = some active }
trap (first ∷ rest) active = record {
  active_element = first;
  previously_focused_element = some active;
}

unfoldable pub last_of : ℕ → List ℕ → ℕ
last_of first [] = first
last_of first (next ∷ rest) = last_of next rest

-- The listener for Tab: where it moves the focus, if it does, and whether it prevents the default.
pub handle_tab : (shift_key : Bool) (elements : List ℕ) (active_element : ℕ) → Option ℕ × Bool
unfolding last_of
handle_tab shift_key [] active = (none, true)
handle_tab shift_key (first ∷ rest) active =
    let last = last_of first rest in
    let edge = if shift_key then first else last in
    let other = if shift_key then last else first in
    if active == edge then (some other, true) else (none, false)

given_back : Option ℕ → Focus → Focus
given_back none s = s
given_back (some element) s = record s { active_element = element }

-- The cleanup gives the focus back.
pub release : Focus → Focus
unfolding given_back
release s = given_back s.previously_focused_element s

moved : Option ℕ × Bool → (active_element by_default : ℕ) → ℕ
moved (some element, prevented) active by_default = element
moved (none, true) active by_default = active
moved (none, false) active by_default = by_default

-- A press of Tab; `by_default` is where the browser moves the focus from an element.
pub press : (by_default : Bool → ℕ → ℕ) (shift_key : Bool) (elements : List ℕ) → Focus → Focus
unfolding handle_tab moved
press by_default shift_key elements s = record s {
  active_element =
      moved (handle_tab shift_key elements s.active_element) s.active_element
        (by_default shift_key s.active_element);
}

pub presses : (by_default : Bool → ℕ → ℕ) (elements : List ℕ) → List Bool → Focus → Focus
unfolding press
presses by_default elements [] s = s
presses by_default elements (shift_key ∷ keys) s =
    presses by_default elements keys (press by_default shift_key elements s)

unfoldable pub is_inside : ℕ → List ℕ → Bool
is_inside element elements = any (λ e. e == element) elements

-- The browser's own move from an element that is not the last one, or with Shift not the first one, to
-- its neighbour in the document stays among the elements of the dialog.
pub record IsNeighbour (by_default : Bool → ℕ → ℕ) (first : ℕ) (rest : List ℕ) : Type 0 where
  pub forward :
      (x : ℕ)
      → is_inside x (first ∷ rest) ≡ true
      → (x == last_of first rest) ≡ false
      → is_inside (by_default false x) (first ∷ rest) ≡ true
  pub backward :
      (x : ℕ)
      → is_inside x (first ∷ rest) ≡ true
      → (x == first) ≡ false
      → is_inside (by_default true x) (first ∷ rest) ≡ true

is_inside-first : (first : ℕ) (rest : List ℕ) → is_inside first (first ∷ rest) ≡ true
unfolding is_inside
is_inside-first first rest = ground arith

is_inside-last_of :
    (first : ℕ) (rest : List ℕ) → is_inside (last_of first rest) (first ∷ rest) ≡ true
unfolding last_of is_inside
is_inside-last_of first [] = is_inside-first first []
is_inside-last_of first (next ∷ rest) = ground (arith, is_inside-last_of next rest)

module _ (by_default : Bool → ℕ → ℕ) (first : ℕ) (rest : List ℕ)
    (neighbour : IsNeighbour by_default first rest) where
  press-is_inside :
      (shift_key : Bool) (s : Focus)
      → is_inside s.active_element (first ∷ rest) ≡ true
      → is_inside (press by_default shift_key (first ∷ rest) s).active_element (first ∷ rest) ≡ true
  unfolding press handle_tab moved
  press-is_inside true s h = elim (Bool-cases (s.active_element == first)) [
    | inl edge ↦ simp edge (is_inside-last_of first rest)
    | inr inner ↦ simp inner (neighbour.backward s.active_element h inner)
  ]
  press-is_inside false s h = elim (Bool-cases (s.active_element == last_of first rest)) [
    | inl edge ↦ simp edge (is_inside-first first rest)
    | inr inner ↦ simp inner (neighbour.forward s.active_element h inner)
  ]

  presses-is_inside :
      (keys : List Bool) (s : Focus)
      → is_inside s.active_element (first ∷ rest) ≡ true
      → is_inside (presses by_default (first ∷ rest) keys s).active_element (first ∷ rest) ≡ true
  unfolding presses
  presses-is_inside [] s h = h
  presses-is_inside (shift_key ∷ keys) s h =
      presses-is_inside keys (press by_default shift_key (first ∷ rest) s)
        (press-is_inside shift_key s h)

  presses-previous :
      (keys : List Bool) (s : Focus)
      → (presses by_default (first ∷ rest) keys s).previously_focused_element
        ≡ s.previously_focused_element
  unfolding presses press
  presses-previous [] s = refl
  presses-previous (shift_key ∷ keys) s =
      presses-previous keys (press by_default shift_key (first ∷ rest) s)

  -- The dialog has an element that takes the focus, and the browser moves from an element to its
  -- neighbour. From when the dialog opens, and however often Tab is pressed, with Shift or without, the
  -- focus is inside the dialog; and when it closes, the focus is where it was before.
  pub presses-trap :
      (keys : List Bool) (active : ℕ)
      → let after = presses by_default (first ∷ rest) keys (trap (first ∷ rest) active) in
        (is_inside after.active_element (first ∷ rest) ≡ true)
        × ((release after).active_element ≡ active)
  unfolding trap release given_back
  presses-trap keys active =
      let opened = trap (first ∷ rest) active in
      let after = presses by_default (first ∷ rest) keys opened in
      (
        presses-is_inside keys opened (is_inside-first first rest),
        ap (λ p. (given_back p after).active_element) (presses-previous keys opened),
      )
