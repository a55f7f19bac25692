-- ===== src/Ui/Toasts.antt =====
-- frontend/src/components/ui/Toast.tsx: the store of the toasts, and the timer of each of them. The
-- container hands every toast a new `onRemove` when it is rendered, so each change of the store starts
-- all the timers again. Time passes in milliseconds.
pub mod Ends
use cloudscale_commerce.Prelude.{
  ℕ, zero, suc, ◌-◌, leb, Bool, not, if◌then◌else◌, Option, none, some, List, [], ◌∷◌, ◌++◌, map,
  filter, String, str_eq,
}

pub data ToastVariant : Type 0 where
  success error warning info : ToastVariant

pub record Toast : Type 0 where
  pub id : String
  pub title : String
  pub description : Option String
  pub variant : ToastVariant
  pub duration : Option ℕ

pub record Options : Type 0 where
  pub description : Option String
  pub variant : Option ToastVariant
  pub duration : Option ℕ

-- `t.duration || 5000`
unfoldable pub delay_of : Option ℕ → ℕ
delay_of none = 5_000
delay_of (some zero) = 5_000
delay_of (some (suc n)) = suc n

variant_of : Option ToastVariant → ToastVariant
variant_of none = info
variant_of (some variant) = variant

-- A toast on the screen, with the time that its timer has left.
pub record Item : Type 0 where
  pub shown : Toast
  pub left : ℕ

unfoldable pub restarted : Item → Item
unfolding delay_of
restarted i = record i { left = delay_of i.shown.duration }

unfoldable pub start_timers : List Item → List Item
unfolding restarted
start_timers items = map restarted items

pub add : Toast → List Item → List Item
unfolding start_timers
add t items = start_timers (items ++ record { shown = t; left = 0 } ∷ [])

unfoldable pub other_id : String → Item → Bool
other_id id i = not (str_eq i.shown.id id)

unfoldable pub remove : String → List Item → List Item
unfolding start_timers other_id
remove id items = start_timers (filter (other_id id) items)

-- The function that the rest of the program calls; `new_id` is what `crypto.randomUUID` gives.
pub toast : (new_id title : String) → Options → List Item → List Item
unfolding add variant_of delay_of
toast new_id title opts items =
    add
      (record {
        id = new_id;
        title = title;
        description = opts.description;
        variant = variant_of opts.variant;
        duration = some (delay_of opts.duration);
      })
      items

-- The first toast whose timer fires within the next millisecond.
unfoldable pub due : List Item → Option Item
due [] = none
due (i ∷ items) = let later = due items in if leb i.left 1 then some i else later

unfoldable pub elapsed : Item → Item
elapsed i = record i { left = i.left - 1 }

unfoldable pub after_tick : Option Item → List Item → List Item
unfolding remove elapsed
after_tick none items = map elapsed items
after_tick (some i) items = remove i.shown.id items

unfoldable pub tick : List Item → List Item
unfolding due after_tick
tick items = after_tick (due items) items

unfoldable pub ticks : ℕ → List Item → List Item
unfolding tick
ticks zero items = items
ticks (suc n) items = ticks n (tick items)
