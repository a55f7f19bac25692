-- ===== src/Pages/Catalog.antt =====
-- frontend/src/pages/Catalog.tsx: the products that are shown, and the handlers of the page. A text is
-- read by its code points, on which `includes` agrees with the one on code units.
pub mod Laws
pub mod Browse
pub mod View
pub mod Shows
mod Tests
use Prim.Native.String
use cloudscale_commerce.Prelude.{
  ℕ, zero, suc, ◌+◌, ◌%◌, Bool, true, false, not, ◌&&◌, ◌||◌, if◌then◌else◌, Option, none, some,
  List, [], ◌∷◌, map, take, filter, any, get_elem?, String, str_eq,
}
use cloudscale_commerce.Number.{Number}
use cloudscale_commerce.Text.{Text, literal, text_eq, includes}
use cloudscale_commerce.Sort.{Sign, sort}
use cloudscale_commerce.Cart.{NewItem, CartState, add_item}
use cloudscale_commerce.Stores.Wishlist.{Wishlist, toggle_wishlist, is_wishlisted}
use cloudscale_commerce.Stores.Notification.{Toast, Variant}
use cloudscale_commerce.Api.Client.{Rejection}
use cloudscale_commerce.Pages.Answers.{response_detail, message_of, or_else}

pub record Product (N : Type 0) : Type 0 where
  pub id : String
  pub sku : String
  pub name : String
  pub description : String
  pub price : N
  pub is_active : Bool
  pub category : Option String
  pub image_url : Option String

pub data SortBy : Type 0 where
  default price_asc price_desc by_name : SortBy

-- The state of the page that decides what is shown.
pub record Filters (N : Type 0) : Type 0 where
  pub search : Text
  pub selected_category : String
  pub max_price : N
  pub sort_by : SortBy

-- The keys of `mockImages`, a table of addresses.
pub data ImageSet : Type 0 where
  apparel electronics furniture default_images : ImageSet

has_word : Text → List String → Bool
has_word name words = any (λ word. includes name (literal word)) words

-- Which entry of `mockImages` a product is shown with; `name` in lower case.
pub product_images : (name : Text) → ImageSet
unfolding has_word
product_images name =
    if has_word name ("shirt" ∷ "jacket" ∷ "hoodie" ∷ "pant" ∷ [])
    then apparel
    else if has_word name ("headphone" ∷ "watch" ∷ "camera" ∷ "phone" ∷ [])
    then electronics
    else if has_word name ("chair" ∷ "desk" ∷ "table" ∷ "lamp" ∷ [])
    then furniture
    else default_images

-- `categories[index % categories.length]`
usual_category : ℕ → String
usual_category index =
    or_else (get_elem? ("Electronics" ∷ "Apparel" ∷ "Furniture" ∷ "Accessories" ∷ []) (index % 4))
      ""

-- The handler's toast for the cart, and for the wishlist, which it reads after it has written it.
pub handle_toggle_wishlist : String → Wishlist → Wishlist × Toast
handle_toggle_wishlist product_id ids =
    let after = toggle_wishlist product_id ids in
    let wish = is_wishlisted product_id after in
    (
      after,
      record {
        title = if wish then "Removed from Wishlist" else "Added to Wishlist";
        description =
            if wish
            then "Item removed from your favorites list."
            else "Item saved to your favorites list.";
        variant = if wish then Variant.info else Variant.success;
      },
    )

-- What becomes of the text of a bulk import: it is no JSON, or no array, or the call fails, or it
-- succeeds with a list of some length, if it has one.
pub data Import : Type 0 where
  no_json : (message : String) → Import
  no_array : Import
  rejected : Rejection → Import
  imported : (answered : Option ℕ) (parsed : ℕ) → Import

pub record ImportForm : Type 0 where
  pub is_bulk_open : Bool
  pub bulk_submitting : Bool

-- `res.data?.length || parsed.length`
length_or : Option ℕ → ℕ → ℕ
length_or none parsed = parsed
length_or (some zero) parsed = parsed
length_or (some (suc n)) parsed = suc n

import_error : String → Toast
import_error description = record {
  title = "Import Error";
  description = description;
  variant = Variant.info;
}

-- The form after `handleBulkImport`, its toast, and whether the products are fetched again. `shown`
-- is the decimal text of a number.
unfoldable pub handle_bulk_import :
    (shown : ℕ → String) → Import → ImportForm → ImportForm × Toast × Bool
unfolding length_or import_error
handle_bulk_import shown (no_json message) form = (
  record form { bulk_submitting = false },
  import_error (or_else (some message) "Failed to bulk import products."),
  false,
)
handle_bulk_import shown no_array form = (
  record form { bulk_submitting = false },
  record {
    title = "Invalid Payload";
    description = "Bulk import payload must be a JSON array of product objects.";
    variant = Variant.warning;
  },
  false,
)
handle_bulk_import shown (rejected e) form = (
  record form { bulk_submitting = false },
  import_error
      (or_else (response_detail e) (or_else (message_of e) "Failed to bulk import products.")),
  false,
)
handle_bulk_import shown (imported answered parsed) form = (
  record { is_bulk_open = false; bulk_submitting = false },
  record {
    title = "Bulk Import Completed";
    description =
        String.◌++◌ "Successfully imported "
          (String.◌++◌ (shown (length_or answered parsed)) " items into the catalog database.");
    variant = Variant.success;
  },
  true,
)

pub record Listing (N : Type 0) : Type 0 where
  pub products : List (Product N)
  pub loading : Bool
  pub error : Option String

-- `Array.from(new Set(…))`: every text once, where it stands first.
distinct : List String → List String
distinct [] = []
distinct (c ∷ rest) = c ∷ filter (λ d. not (str_eq d c)) (distinct rest)

same_category : Option String → Option String → Bool
same_category none none = true
same_category (some c) (some d) = str_eq c d
same_category _ _ = false

module _ {N : Type 0} where
  -- The category that `fetchProducts` fills in.
  with_category : ℕ → Product N → Product N
  unfolding usual_category
  with_category index p = record p { category = some (or_else p.category (usual_category index)) }

  with_categories : ℕ → List (Product N) → List (Product N)
  unfolding with_category
  with_categories index [] = []
  with_categories index (p ∷ products) =
      with_category index p ∷ with_categories (index + 1) products

  -- The answer to `fetchProducts`: its items, where there are any, or nothing where the call fails.
  unfoldable pub fetch_products : Option (Option (List (Product N))) → Listing N → Listing N
  unfolding with_categories
  fetch_products none s = record s {
    error = some "Failed to load catalog products.";
    loading = false;
  }
  fetch_products (some none) s = record s { products = []; loading = false }
  fetch_products (some (some items)) s = record s {
    products = with_categories 0 items;
    loading = false;
  }

  -- The chips over the list.
  pub categories : List (Product N) → List String
  unfolding distinct
  categories products = "All" ∷ distinct (map (λ p. or_else p.category "General") products)

  pub is_in : String → Product N → Bool
  is_in category p = elim p.category [ none ↦ false | some c ↦ str_eq c category ]

  recommended : Product N → List (Product N) → List (Product N)
  unfolding same_category
  recommended selected products = take 3 (
      filter (λ p. same_category p.category selected.category && not (str_eq p.id selected.id))
        products)

  pub recommendations : Option (Product N) → List (Product N) → List (Product N)
  unfolding recommended
  recommendations none products = []
  recommendations (some selected) products = recommended selected products

module _ {N : Type 0} ⦃num : Number N⦄ where
  pub handle_add_to_cart : Product N → CartState N → CartState N × Toast
  handle_add_to_cart p cart = (
    add_item (record { product_id = p.id; sku = p.sku; name = p.name; price = p.price }) cart,
    record {
      title = "Added to Cart";
      description = String.◌++◌ p.name " has been added to your shopping cart.";
      variant = Variant.success;
    },
  )

  -- The button that resets the filters leaves the order as it is.
  pub reset_filters : Filters N → Filters N
  reset_filters f = record f {
    selected_category = "All";
    search = [];
    max_price = num.decimal 2_000 0;
  }

  -- The sign of `a - b`.
  by_price : N → N → Sign
  by_price a b = if num.lt b a then Sign.plus else if num.lt a b then Sign.minus else Sign.equal

  -- `to_lower` and `compare` are `toLowerCase` and `localeCompare` of the runtime.
  module _ (to_lower : Text → Text) (compare : String → String → Sign) where
    pub is_found : Text → Product N → Bool
    is_found search p =
        let q = to_lower search in
        includes (to_lower (literal p.name)) q
        || includes (to_lower (literal p.sku)) q
        || includes (to_lower (literal p.description)) q

    comparison : SortBy → Product N → Product N → Sign
    unfolding by_price
    comparison default a b = Sign.equal
    comparison price_asc a b = by_price a.price b.price
    comparison price_desc a b = by_price b.price a.price
    comparison by_name a b = compare a.name b.name

    sorted_by : SortBy → List (Product N) → List (Product N)
    unfolding comparison
    sorted_by default products = products
    sorted_by order products = sort (comparison order) products

    pub processed_products : Filters N → List (Product N) → List (Product N)
    unfolding is_found is_in sorted_by
    processed_products f products =
        let found = if text_eq f.search [] then products else filter (is_found f.search) products in
        let chosen =
          if str_eq f.selected_category "All"
          then found
          else filter (is_in f.selected_category) found in
        sorted_by f.sort_by (filter (λ p. num.le p.price f.max_price) chosen)
