-- ===== src/Pages/Catalog/Tests.antt =====
-- The catalog while it is used.
use cloudscale_commerce.Prelude.{
  ℕ, ◌≡◌, refl, true, false, none, some, List, [], ◌∷◌, foldl, String, ◌⊎◌,
}
use cloudscale_commerce.Number.{fixed_point}
use cloudscale_commerce.Text.{Text}
use cloudscale_commerce.Sort.{Sign}
use cloudscale_commerce.Cart.{CartState}
use cloudscale_commerce.Pages.Catalog.{Product, default, no_array}
use cloudscale_commerce.Pages.Catalog.Browse.{
  Browse, card, heart, Event, fetched, click, thumbnail, import_settled, choose_category, step,
}
use cloudscale_commerce.Pages.Catalog.View.{skeletons, alert, body_of, quick_view_of}
use cloudscale_commerce.Pages.Catalog.Shows.{run-image, run-alert}

abbrev same : Text → Text
same t = t

abbrev by_no_name : String → String → Sign
by_no_name a b = Sign.equal

abbrev digits : ℕ → String
digits n = "2"

abbrev shirt : Product ℕ
shirt = record {
  id = "p1";
  sku = "S1";
  name = "red shirt";
  description = "";
  price = 30_000;
  is_active = true;
  category = some "Apparel";
  image_url = none;
}

abbrev empty_cart : CartState ℕ
empty_cart = record {
  items = [];
  shipping_cost = 99_900;
  tax_rate = 800;
  coupon_code = none;
  discount_value = 0;
}

abbrev opened : Browse ℕ
opened = record {
  listing = record { products = []; loading = true; error = none };
  filters = record {
    search = [];
    selected_category = "All";
    max_price = 20_000_000;
    sort_by = default;
  };
  selected_product = none;
  active_image_index = 0;
  form = record { is_bulk_open = false; bulk_submitting = false };
  cart = empty_cart;
  wishes = [];
  toasts = [];
}

abbrev clicks : List (Event ℕ)
clicks =
    fetched (some (some (shirt ∷ []))) ∷ click card shirt ∷ thumbnail 2 ∷ click heart shirt ∷ []

third_picture :
    (address : String) × ((quick_view_of same by_no_name
        (foldl (step digits) opened clicks)
        shirt).image
      ≡ some address)
third_picture =
    run-image digits same by_no_name opened clicks shirt refl (tt, (tt, (refl, (tt, tt))))

abbrev retries : List (Event ℕ)
retries =
    import_settled no_array ∷ fetched (some (some (shirt ∷ []))) ∷ choose_category "Apparel" ∷ []

run-alert_example :
    let after = foldl (step digits) (step digits opened (fetched none)) retries in
    (body_of same by_no_name after ≡ skeletons 6)
    ⊎ (body_of same by_no_name after ≡ alert "Failed to load catalog products.")
run-alert_example = run-alert digits same by_no_name opened retries
