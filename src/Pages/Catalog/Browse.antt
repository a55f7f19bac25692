-- ===== src/Pages/Catalog/Browse.antt =====
-- frontend/src/pages/Catalog.tsx: the whole page, with its filters, its cards, the quick view and the
-- import, and what each click does.

use cloudscale_commerce.Prelude.{
  ℕ, Bool, true, false, if◌then◌else◌, Option, none, some, List, ◌∷◌, String,
}
use cloudscale_commerce.Number.{Number}
use cloudscale_commerce.Text.{Text}
use cloudscale_commerce.Cart.{CartState}
use cloudscale_commerce.Stores.Wishlist.{Wishlist}
use cloudscale_commerce.Stores.Notification.{Toast}
use cloudscale_commerce.Pages.Catalog.{
  Product, SortBy, Filters, handle_toggle_wishlist, Import, ImportForm, handle_bulk_import, Listing,
  fetch_products, handle_add_to_cart, reset_filters,
}

-- The state of the page, the stores it writes, and the toasts it has shown, the newest first.
pub record Browse (N : Type 0) : Type 0 where
  pub listing : Listing N
  pub filters : Filters N
  pub selected_product : Option (Product N)
  pub active_image_index : ℕ
  pub form : ImportForm
  pub cart : CartState N
  pub wishes : Wishlist
  pub toasts : List Toast

-- What of a card is clicked: the card itself, or one of its buttons.
pub data Target : Type 0 where
  card heart quick_view add : Target

pub data Event (N : Type 0) : Type 0 where
  fetch_started : Event N
  fetched : Option (Option (List (Product N))) → Event N
  search : Text → Event N
  choose_category : String → Event N
  choose_max_price : N → Event N
  choose_order : SortBy → Event N
  reset : Event N
  click : Target → Product N → Event N
  close_quick_view : Event N
  thumbnail : ℕ → Event N
  add_selected : Event N
  wish_selected : Event N
  recommend : Product N → Event N
  open_import : Event N
  close_import : Event N
  import_started : Event N
  import_settled : Import → Event N

module _ {N : Type 0} ⦃num : Number N⦄ where
  unfoldable pub select : Product N → Browse N → Browse N
  select p s = record s { selected_product = some p; active_image_index = 0 }

  unfoldable pub add_to_cart : Product N → Browse N → Browse N
  add_to_cart p s =
      let (cart, toast) = handle_add_to_cart p s.cart in
      record s { cart = cart; toasts = toast ∷ s.toasts }

  unfoldable pub toggle_wish : Product N → Browse N → Browse N
  toggle_wish p s =
      let (wishes, toast) = handle_toggle_wishlist p.id s.wishes in
      record s { wishes = wishes; toasts = toast ∷ s.toasts }

  -- The handler of what is clicked, and whether it stops the click from reaching the card.
  unfoldable pub on_target : Target → Product N → Browse N → Browse N × Bool
  unfolding select add_to_cart toggle_wish
  on_target card p s = (s, false)
  on_target heart p s = (toggle_wish p s, true)
  on_target quick_view p s = (select p s, true)
  on_target add p s = (add_to_cart p s, true)

  -- A click goes to the innermost element, then to the card round it.
  unfoldable pub on_click : Target → Product N → Browse N → Browse N
  unfolding on_target select
  on_click target p s =
      let (after, is_stopped) = on_target target p s in if is_stopped then after else select p after

  -- The buttons of the quick view are drawn where a product is selected.
  unfoldable pub on_selected :
      (Product N → Browse N → Browse N) → Option (Product N) → Browse N → Browse N
  on_selected handle none s = s
  on_selected handle (some p) s = handle p s

  unfoldable pub step : (shown : ℕ → String) → Browse N → Event N → Browse N
  unfolding on_click on_selected select add_to_cart toggle_wish
  step shown s fetch_started = record s { listing = record s.listing { loading = true } }
  step shown s (fetched answer) = record s { listing = fetch_products answer s.listing }
  step shown s (search text) = record s { filters = record s.filters { search = text } }
  step shown s (choose_category cat) = record s {
    filters = record s.filters { selected_category = cat };
  }
  step shown s (choose_max_price price) = record s {
    filters = record s.filters { max_price = price };
  }
  step shown s (choose_order order) = record s { filters = record s.filters { sort_by = order } }
  step shown s reset = record s { filters = reset_filters s.filters }
  step shown s (click target p) = on_click target p s
  step shown s close_quick_view = record s { selected_product = none }
  step shown s (thumbnail idx) = record s { active_image_index = idx }
  step shown s add_selected = on_selected add_to_cart s.selected_product s
  step shown s wish_selected = on_selected toggle_wish s.selected_product s
  step shown s (recommend rec) = select rec s
  step shown s open_import = record s { form = record s.form { is_bulk_open = true } }
  step shown s close_import = record s { form = record s.form { is_bulk_open = false } }
  step shown s import_started = record s { form = record s.form { bulk_submitting = true } }
  step shown s (import_settled outcome) =
      let (form, toast, fetches) = handle_bulk_import shown outcome s.form in
      record s {
        form = form;
        toasts = toast ∷ s.toasts;
        listing = if fetches then record s.listing { loading = true } else s.listing;
      }
