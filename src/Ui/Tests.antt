-- ===== src/Ui/Tests.antt =====
-- The components at concrete inputs.
use cloudscale_commerce.Prelude.{
  ℕ, ◌≡◌, refl, true, false, Option, none, some, List, [], ◌∷◌, String, arith, ◌&&◌, ◌||◌, not, any,
  foldl,
}
use cloudscale_commerce.Ui.Pagination.{page, dots, get_pages}
use cloudscale_commerce.Ui.Pagination.Laws.{IsBar, get_pages-IsBar}
use cloudscale_commerce.Ui.Dialogs.{Document, Change, mounted, changed, render, listens}
use cloudscale_commerce.Ui.Dialogs.Laws.{opens, cleans, is_opening, is_cleaning, listens-render}
use cloudscale_commerce.Ui.Tooltip
use cloudscale_commerce.Ui.Toasts.{Item, ToastVariant, delay_of, start_timers, ticks}
use cloudscale_commerce.Ui.Toasts.Ends.{ticks-start_timers}
use cloudscale_commerce.Ui.FileUpload.{File, Limits, Event, drop, change, remove}

bar : get_pages 5 9 1 ≡ page 1 ∷ dots ∷ page 4 ∷ page 5 ∷ page 6 ∷ dots ∷ page 9 ∷ []
unfolding get_pages
bar = refl

get_pages-IsBar_example : IsBar 9 (get_pages 5 9 1)
get_pages-IsBar_example = get_pages-IsBar 5 9 1 (omega arith) (omega arith) (omega arith)

abbrev limits : Limits
limits = record { multiple = true; max_size = 100; max_files = 2; disabled = false }

abbrev file : String → ℕ → File
file name size = record { name = name; size = size }

abbrev uploads : List Event
uploads =
    change (file "a" 10 ∷ file "b" 20 ∷ [])
    ∷ drop (file "c" 200 ∷ [])
    ∷ drop (file "d" 30 ∷ [])
    ∷ remove 0
    ∷ []

abbrev message : String → Option ℕ → Item
message id duration = record {
  shown = record {
    id = id;
    title = id;
    description = none;
    variant = ToastVariant.info;
    duration = duration;
  };
  left = 0;
}

abbrev messages : List Item
messages = message "a" (some 3) ∷ message "b" (some 2) ∷ []

ticks-start_timers_example : ticks 6 (start_timers messages) ≡ []
unfolding delay_of
ticks-start_timers_example =
    ticks-start_timers 3 messages (omega arith) (omega arith, (omega arith, tt))

-- A drawer opens over a modal, which is rendered again.
abbrev changes : List Change
changes = mounted 2 true ∷ changed 1 true ∷ []

listens-render_example :
    let d : Document = record { listeners = 1 ∷ []; is_hidden = true } in
    (listens 1 (render changes d)
      ≡ (any (opens 1) changes || (not (any (cleans 1) changes) && listens 1 d)))
    × ((render changes d).is_hidden
        ≡ (any is_opening changes || (not (any is_cleaning changes) && d.is_hidden)))
listens-render_example = listens-render 1 changes (record { listeners = 1 ∷ []; is_hidden = true })

abbrev visits : List Tooltip.Visit
visits =
    record { by_keys = false; fired = 1 ∷ [] }
    ∷ record { by_keys = true; fired = [] }
    ∷ record { by_keys = false; fired = 2 ∷ [] }
    ∷ []

run-IsOver_example :
    Tooltip.IsOver (foldl (λ t v. Tooltip.run (Tooltip.events_of v) t) Tooltip.mounted visits)
run-IsOver_example = Tooltip.run-IsOver visits
