-- ===== src/Pages/Catalog/Shows.antt =====
-- What stays true of the page while it is used: the picture of the quick view, and a failed fetch.
use cloudscale_commerce.Prelude.{
  ℕ, zero, suc, ltb, ◌≡◌, refl, ◌⊎◌, inl, inr, true, Option, none, some, List, [], ◌∷◌, foldl,
  get_elem?, All, String, Bool-cases, arith,
}
use cloudscale_commerce.Number.{Number}
use cloudscale_commerce.Text.{Text}
use cloudscale_commerce.Sort.{Sign}
use cloudscale_commerce.Pages.Catalog.{
  Product, ImageSet, Import, handle_bulk_import, fetch_products,
}
use cloudscale_commerce.Pages.Catalog.Browse.{
  Browse, Target, Event, fetch_started, fetched, search, choose_category, choose_max_price,
  choose_order, reset, click, close_quick_view, thumbnail, add_selected, wish_selected, recommend,
  open_import, close_import, import_started, import_settled, select, add_to_cart, toggle_wish,
  on_target, on_click, on_selected, step,
}
use cloudscale_commerce.Pages.Catalog.View.{
  mock_images, skeletons, alert, images, quick_view_of, body_of, unlisted,
}

one_of_three :
    (a b c : String) (idx : ℕ)
    → ltb idx 3 ≡ true
    → (address : String) × (get_elem? (a ∷ b ∷ c ∷ []) idx ≡ some address)
one_of_three a b c zero few = (a, refl)
one_of_three a b c (suc zero) few = (b, refl)
one_of_three a b c (suc (suc zero)) few = (c, refl)
one_of_three a b c (suc (suc (suc idx))) few = absurd (ground arith)

image_at :
    (set : ImageSet) (idx : ℕ)
    → ltb idx 3 ≡ true
    → (address : String) × (get_elem? (mock_images set) idx ≡ some address)
image_at ImageSet.apparel idx few = one_of_three _ _ _ idx few
image_at ImageSet.electronics idx few = one_of_three _ _ _ idx few
image_at ImageSet.furniture idx few = one_of_three _ _ _ idx few
image_at ImageSet.default_images idx few = one_of_three _ _ _ idx few

module _ {N : Type 0} ⦃num : Number N⦄ (shown : ℕ → String) where
  -- A click on a thumbnail needs one that is drawn, of which there are three.
  abbrev pub IsDrawn : Event N → Type 0
  IsDrawn (thumbnail idx) = ltb idx 3 ≡ true
  IsDrawn _ = Unit

  abbrev HasImage : Browse N → Type 0
  HasImage s = ltb s.active_image_index 3 ≡ true

  -- What the handlers of the quick view's buttons keep, the buttons keep.
  selected_keeps :
      (P : Browse N → Type 0) (handle : Product N → Browse N → Browse N)
      → ((p : Product N) (s : Browse N) → P s → P (handle p s))
      → (o : Option (Product N)) (s : Browse N) → P s
      → P (on_selected handle o s)
  unfolding on_selected
  selected_keeps P handle keeps none s h = h
  selected_keeps P handle keeps (some p) s h = keeps p s h

  click-HasImage :
      (target : Target) (p : Product N) (s : Browse N) → HasImage s → HasImage (on_click target p s)
  unfolding on_click on_target select add_to_cart toggle_wish
  click-HasImage Target.card p s h = refl
  click-HasImage Target.heart p s h = h
  click-HasImage Target.quick_view p s h = refl
  click-HasImage Target.add p s h = h

  step-HasImage : (s : Browse N) (e : Event N) → IsDrawn e → HasImage s → HasImage (step shown s e)
  unfolding step select add_to_cart toggle_wish
  step-HasImage s fetch_started d h = h
  step-HasImage s (fetched answer) d h = h
  step-HasImage s (search text) d h = h
  step-HasImage s (choose_category cat) d h = h
  step-HasImage s (choose_max_price price) d h = h
  step-HasImage s (choose_order order) d h = h
  step-HasImage s reset d h = h
  step-HasImage s (click target p) d h = click-HasImage target p s h
  step-HasImage s close_quick_view d h = h
  step-HasImage s (thumbnail idx) d h = d
  step-HasImage s add_selected d h =
      selected_keeps HasImage add_to_cart (λ p s h. h) s.selected_product s h
  step-HasImage s wish_selected d h =
      selected_keeps HasImage toggle_wish (λ p s h. h) s.selected_product s h
  step-HasImage s (recommend rec) d h = refl
  step-HasImage s open_import d h = h
  step-HasImage s close_import d h = h
  step-HasImage s import_started d h = h
  step-HasImage s (import_settled outcome) d h = h

  run-HasImage :
      (s : Browse N) (events : List (Event N))
      → All IsDrawn events
      → HasImage s
      → HasImage (foldl (step shown) s events)
  run-HasImage s [] d h = h
  run-HasImage s (e ∷ events) (this, those) h =
      run-HasImage (step shown s e) events those (step-HasImage s e this h)

  -- From a page that draws the first picture on, after any events whose thumbnails are drawn: whichever
  -- product the quick view is drawn for, it shows one of the product's pictures.
  pub run-image :
      (to_lower : Text → Text) (compare : String → String → Sign) (s : Browse N)
      (events : List (Event N)) (p : Product N)
      → s.active_image_index ≡ 0
      → All IsDrawn events
      → (address : String) × ((quick_view_of to_lower compare (foldl (step shown) s events) p).image
          ≡ some address)
  unfolding quick_view_of images
  run-image to_lower compare s events p first drawn =
      image_at _ (foldl (step shown) s events).active_image_index
        (run-HasImage s events drawn (rw first refl))

  abbrev HasFailed : Browse N → Type 0
  HasFailed s = s.listing.error ≡ some "Failed to load catalog products."

  fetched-HasFailed :
      (answer : Option (Option (List (Product N)))) (s : Browse N)
      → HasFailed s
      → HasFailed (step shown s (fetched answer))
  unfolding step fetch_products
  fetched-HasFailed none s h = refl
  fetched-HasFailed (some none) s h = h
  fetched-HasFailed (some (some items)) s h = h

  click-HasFailed :
      (target : Target) (p : Product N) (s : Browse N)
      → HasFailed s
      → HasFailed (on_click target p s)
  unfolding on_click on_target select add_to_cart toggle_wish
  click-HasFailed Target.card p s h = h
  click-HasFailed Target.heart p s h = h
  click-HasFailed Target.quick_view p s h = h
  click-HasFailed Target.add p s h = h

  import-HasFailed :
      (outcome : Import) (s : Browse N)
      → HasFailed s
      → HasFailed (step shown s (import_settled outcome))
  unfolding step handle_bulk_import
  import-HasFailed (Import.no_json message) s h = h
  import-HasFailed Import.no_array s h = h
  import-HasFailed (Import.rejected e) s h = h
  import-HasFailed (Import.imported answered parsed) s h = h

  step-HasFailed : (s : Browse N) (e : Event N) → HasFailed s → HasFailed (step shown s e)
  unfolding step select add_to_cart toggle_wish
  step-HasFailed s fetch_started h = h
  step-HasFailed s (fetched answer) h = fetched-HasFailed answer s h
  step-HasFailed s (search text) h = h
  step-HasFailed s (choose_category cat) h = h
  step-HasFailed s (choose_max_price price) h = h
  step-HasFailed s (choose_order order) h = h
  step-HasFailed s reset h = h
  step-HasFailed s (click target p) h = click-HasFailed target p s h
  step-HasFailed s close_quick_view h = h
  step-HasFailed s (thumbnail idx) h = h
  step-HasFailed s add_selected h =
      selected_keeps HasFailed add_to_cart (λ p s h. h) s.selected_product s h
  step-HasFailed s wish_selected h =
      selected_keeps HasFailed toggle_wish (λ p s h. h) s.selected_product s h
  step-HasFailed s (recommend rec) h = h
  step-HasFailed s open_import h = h
  step-HasFailed s close_import h = h
  step-HasFailed s import_started h = h
  step-HasFailed s (import_settled outcome) h = import-HasFailed outcome s h

  run-HasFailed :
      (s : Browse N) (events : List (Event N))
      → HasFailed s
      → HasFailed (foldl (step shown) s events)
  run-HasFailed s [] h = h
  run-HasFailed s (e ∷ events) h = run-HasFailed (step shown s e) events (step-HasFailed s e h)

  body_of-HasFailed :
      (to_lower : Text → Text) (compare : String → String → Sign) (s : Browse N)
      → HasFailed s
      → (body_of to_lower compare s ≡ skeletons 6)
        ⊎ (body_of to_lower compare s ≡ alert "Failed to load catalog products.")
  unfolding body_of unlisted
  body_of-HasFailed to_lower compare s h = elim (Bool-cases s.listing.loading) [
    | inl loads ↦ inl (rw loads refl)
    | inr waits ↦ inr (rw (waits, h) refl)
  ]

  -- After a fetch that has failed, whatever happens on the page, later fetches that succeed among it:
  -- the list never shows a product again, but the placeholders or the alert of that failure.
  pub run-alert :
      (to_lower : Text → Text) (compare : String → String → Sign) (s : Browse N)
      (events : List (Event N))
      → let after = foldl (step shown) (step shown s (fetched none)) events in
        (body_of to_lower compare after ≡ skeletons 6)
        ⊎ (body_of to_lower compare after ≡ alert "Failed to load catalog products.")
  unfolding step fetch_products
  run-alert to_lower compare s events =
      body_of-HasFailed to_lower compare (foldl (step shown) (step shown s (fetched none)) events)
        (run-HasFailed (step shown s (fetched none)) events refl)
