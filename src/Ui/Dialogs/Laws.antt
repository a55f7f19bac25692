-- ===== src/Ui/Dialogs/Laws.antt =====
-- What rendering leaves of the listeners and of the lock, dialog by dialog.
use cloudscale_commerce.Prelude.{
  ℕ, ◌≡◌, refl, ap, sym, ◌∙◌, Bool, true, false, not, ◌&&◌, ◌||◌, List, [], ◌∷◌, ◌++◌, Bool-cases,
  inl, inr, foldl, any, ◌==◌, arith,
}
use cloudscale_commerce.Ui.Dialogs.{
  Document, quiet, Change, mounted, changed, unmounted, listen, forget, clean_up, set_up, clean,
  start, render, listens,
}

-- The change runs the effect of the dialog while it is open, or of any dialog.
unfoldable pub opens : ℕ → Change → Bool
opens id (mounted other is_open) = is_open && other == id
opens id (changed other is_open) = is_open && other == id
opens id (unmounted other) = false

-- The change cleans up behind the dialog, or behind any dialog.
unfoldable pub cleans : ℕ → Change → Bool
cleans id (mounted other is_open) = false
cleans id (changed other is_open) = other == id
cleans id (unmounted other) = other == id

unfoldable pub is_opening : Change → Bool
is_opening (mounted other is_open) = is_open
is_opening (changed other is_open) = is_open
is_opening (unmounted other) = false

unfoldable pub is_cleaning : Change → Bool
is_cleaning (mounted other is_open) = false
is_cleaning (changed other is_open) = true
is_cleaning (unmounted other) = true

any-append :
    (id last : ℕ) (ids : List ℕ)
    → any (λ other. other == id) (ids ++ last ∷ []) ≡ (any (λ other. other == id) ids || last == id)
any-append id last [] = ground arith
any-append id last (x ∷ ids) = ground (arith, any-append id last ids)

any-forget :
    (id gone : ℕ) (ids : List ℕ)
    → any (λ other. other == id) (forget gone ids)
      ≡ (not (gone == id) && any (λ other. other == id) ids)
unfolding forget
any-forget id gone [] = ground arith
any-forget id gone (x ∷ ids) = ground (arith, any-forget id gone ids)

listens-clean :
    (id : ℕ) (c : Change) (d : Document)
    → listens id (clean d c) ≡ (not (cleans id c) && listens id d)
unfolding listens clean clean_up cleans
listens-clean id (mounted other is_open) d = refl
listens-clean id (changed other is_open) d = any-forget id other d.listeners
listens-clean id (unmounted other) d = any-forget id other d.listeners

listens-start :
    (id : ℕ) (c : Change) (d : Document) → listens id (start d c) ≡ (opens id c || listens id d)
unfolding listens start set_up listen opens
listens-start id (mounted other is_open) d = ground (arith, any-append id other d.listeners)
listens-start id (changed other is_open) d = ground (arith, any-append id other d.listeners)
listens-start id (unmounted other) d = refl

listens-clean_all :
    (id : ℕ) (changes : List Change) (d : Document)
    → listens id (foldl clean d changes) ≡ (not (any (cleans id) changes) && listens id d)
listens-clean_all id [] d = refl
listens-clean_all id (c ∷ changes) d =
    ground (arith, listens-clean_all id changes (clean d c), listens-clean id c d)

listens-start_all :
    (id : ℕ) (changes : List Change) (d : Document)
    → listens id (foldl start d changes) ≡ (any (opens id) changes || listens id d)
listens-start_all id [] d = refl
listens-start_all id (c ∷ changes) d =
    ground (arith, listens-start_all id changes (start d c), listens-start id c d)

is_hidden-clean_all :
    (changes : List Change) (d : Document)
    → (foldl clean d changes).is_hidden ≡ (not (any is_cleaning changes) && d.is_hidden)
unfolding clean clean_up is_cleaning
is_hidden-clean_all [] d = refl
is_hidden-clean_all (mounted id is_open ∷ changes) d = is_hidden-clean_all changes d
is_hidden-clean_all (changed id is_open ∷ changes) d =
    ground (arith, is_hidden-clean_all changes (clean_up id d))
is_hidden-clean_all (unmounted id ∷ changes) d =
    ground (arith, is_hidden-clean_all changes (clean_up id d))

is_hidden-start_all :
    (changes : List Change) (d : Document)
    → (foldl start d changes).is_hidden ≡ (any is_opening changes || d.is_hidden)
unfolding start set_up is_opening
is_hidden-start_all [] d = refl
is_hidden-start_all (mounted id true ∷ changes) d =
    ground (arith, is_hidden-start_all changes (set_up id true d))
is_hidden-start_all (mounted id false ∷ changes) d = is_hidden-start_all changes d
is_hidden-start_all (changed id true ∷ changes) d =
    ground (arith, is_hidden-start_all changes (set_up id true d))
is_hidden-start_all (changed id false ∷ changes) d = is_hidden-start_all changes d
is_hidden-start_all (unmounted id ∷ changes) d = is_hidden-start_all changes d

-- Any dialog, after the effects of a rendering: it listens if it has been opened, or has listened and
-- is not cleaned up; and the page behind is kept from scrolling if a dialog has been opened, or if it
-- was so before and no dialog is cleaned up.
pub listens-render :
    (id : ℕ) (changes : List Change) (d : Document)
    → (listens id (render changes d)
        ≡ (any (opens id) changes || (not (any (cleans id) changes) && listens id d)))
      × ((render changes d).is_hidden
          ≡ (any is_opening changes || (not (any is_cleaning changes) && d.is_hidden)))
unfolding render
listens-render id changes d = (
  listens-start_all id changes (foldl clean d changes)
      ∙ ap (λ b. any (opens id) changes || b) (listens-clean_all id changes d),
  is_hidden-start_all changes (foldl clean d changes)
      ∙ ap (λ b. any is_opening changes || b) (is_hidden-clean_all changes d),
)

-- One of two open dialogs closes: the other one still listens, but the page behind it scrolls.
pub is_hidden-closed :
    (id other : ℕ) (d : Document)
    → (id == other) ≡ false
    → listens other d ≡ true
    → let after = render (changed id false ∷ []) d in
      (listens other after ≡ true) × (after.is_hidden ≡ false)
unfolding opens cleans is_opening is_cleaning
is_hidden-closed id other d apart before =
    let (keys, page) = listens-render other (changed id false ∷ []) d in
    (keys ∙ rw (apart, before) refl, page)

opener :
    (changes : List Change)
    → any is_opening changes ≡ true
    → (id : ℕ) × (any (opens id) changes ≡ true)
unfolding is_opening opens
opener [] some_opens = cc
opener (mounted id true ∷ changes) some_opens = (id, ground arith)
opener (changed id true ∷ changes) some_opens = (id, ground arith)
opener (mounted id false ∷ changes) some_opens = opener changes some_opens
opener (changed id false ∷ changes) some_opens = opener changes some_opens
opener (unmounted id ∷ changes) some_opens = opener changes some_opens

cleans_of :
    (id : ℕ) (changes : List Change)
    → any is_cleaning changes ≡ false
    → any (cleans id) changes ≡ false
unfolding is_cleaning cleans
cleans_of id [] none_cleans = refl
cleans_of id (mounted other is_open ∷ changes) none_cleans = cleans_of id changes none_cleans
cleans_of id (changed other is_open ∷ changes) none_cleans = cc
cleans_of id (unmounted other ∷ changes) none_cleans = cc

-- Whoever keeps the page from scrolling is there to listen.
record IsHeld (d : Document) : Type 0 where
  held : d.is_hidden ≡ true → (id : ℕ) × (listens id d ≡ true)

render-IsHeld : (changes : List Change) (d : Document) → IsHeld d → IsHeld (render changes d)
render-IsHeld changes d h = record {
  held = λ hidden. elim (Bool-cases (any is_opening changes)) [
    | inl some_opens ↦
        let (id, here) = opener changes some_opens in
        (id, (listens-render id changes d).0 ∙ rw here refl)
    | inr none_opens ↦
        let either : (any is_opening changes || (not (any is_cleaning changes) && d.is_hidden))
            ≡ true =
          sym (listens-render 0 changes d).1 ∙ hidden in
        let calm : any is_cleaning changes ≡ false = ground arith in
        let (id, here) = h.held (ground arith) in
        (id, (listens-render id changes d).0 ∙ rw (cleans_of id changes calm, here) (ground arith))
  ];
}

foldl-IsHeld :
    (renderings : List (List Change)) (d : Document)
    → IsHeld d
    → IsHeld (foldl (λ d changes. render changes d) d renderings)
foldl-IsHeld [] d h = h
foldl-IsHeld (changes ∷ renderings) d h =
    foldl-IsHeld renderings (render changes d) (render-IsHeld changes d h)

-- After any renderings of a new page, if the page is kept from scrolling, some dialog listens for the
-- key that closes it.
pub run-held :
    (renderings : List (List Change))
    → (foldl (λ d changes. render changes d) quiet renderings).is_hidden ≡ true
    → (id : ℕ) × (listens id (foldl (λ d changes. render changes d) quiet renderings) ≡ true)
run-held renderings hidden =
    (foldl-IsHeld renderings quiet (record { held = λ wrong. cc })).held hidden
