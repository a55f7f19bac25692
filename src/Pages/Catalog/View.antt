-- ===== src/Pages/Catalog/View.antt =====
-- frontend/src/pages/Catalog.tsx: what the page draws. A price is drawn as a number.
use Prim.Native.String
use cloudscale_commerce.Prelude.{
  ℕ, suc, ◌==◌, Bool, if◌then◌else◌, Option, none, some, List, [], ◌∷◌, map, get_elem?, String,
  str_eq,
}
use cloudscale_commerce.Number.{Number}
use cloudscale_commerce.Text.{Text, literal}
use cloudscale_commerce.Sort.{Sign}
use cloudscale_commerce.Stores.Wishlist.{Wishlist, is_wishlisted}
use cloudscale_commerce.Pages.Answers.{or_else}
use cloudscale_commerce.Pages.Catalog.{
  Product, ImageSet, product_images, ImportForm, categories, recommendations, processed_products,
}
use cloudscale_commerce.Pages.Catalog.Browse.{Browse}

pub photo : String → String
photo name =
    String.◌++◌ "https://images.unsplash.com/photo-"
      (String.◌++◌ name "?w=500&auto=format&fit=crop&q=60")

abbrev pub mock_images : ImageSet → List String
mock_images ImageSet.apparel =
    photo "1521572267360-ee0c2909d518"
    ∷ photo "1583743814966-8936f5b7be1a"
    ∷ photo "1489987707025-afc232f7ea0f"
    ∷ []
mock_images ImageSet.electronics =
    photo "1505740420928-5e560c06d30e"
    ∷ photo "1583394838336-acd977736f90"
    ∷ photo "1484704849700-f032a568e944"
    ∷ []
mock_images ImageSet.furniture =
    photo "1524758631624-e2822e304c36"
    ∷ photo "1505691938895-1758d7feb511"
    ∷ photo "1581428982868-e410dd047a90"
    ∷ []
mock_images ImageSet.default_images =
    photo "1523275335684-37898b6baf30"
    ∷ photo "1542291026-7eec264c27ff"
    ∷ photo "1572635196237-14b3f281503f"
    ∷ []

-- What is drawn.
pub record Card (N : Type 0) : Type 0 where
  pub id : String
  pub is_fav : Bool
  pub image : Option String
  pub badge : String
  pub sku : String
  pub price : N
  pub name : String
  pub description : String

pub record Thumbnail : Type 0 where
  pub img : String
  pub is_active : Bool

pub record QuickView (N : Type 0) : Type 0 where
  pub image : Option String
  pub thumbnails : List Thumbnail
  pub category : Option String
  pub price : N
  pub description : String
  pub is_fav : Bool
  pub sku : String
  pub recommended : List (Option String × String × N)

pub data Body (N : Type 0) : Type 0 where
  skeletons : ℕ → Body N
  alert : String → Body N
  no_products_found : Body N
  grid : List (Card N) → Body N

pub record View (N : Type 0) : Type 0 where
  pub chips : List (String × Bool)
  pub max_price : N
  pub body : Body N
  pub drawer_title : String
  pub drawer : Option (QuickView N)
  pub import_form : ImportForm

thumbnails_from : (active idx : ℕ) → List String → List Thumbnail
thumbnails_from active idx [] = []
thumbnails_from active idx (img ∷ imgs) =
    record { img = img; is_active = idx == active } ∷ thumbnails_from active (suc idx) imgs

module _ {N : Type 0} ⦃num : Number N⦄ (to_lower : Text → Text)
    (compare : String → String → Sign) where
  unfoldable pub images : Product N → List String
  images p = mock_images (product_images (to_lower (literal p.name)))

  card_of : Wishlist → Product N → Card N
  unfolding images
  card_of wishes p = record {
    id = p.id;
    is_fav = is_wishlisted p.id wishes;
    image = get_elem? (images p) 0;
    badge = or_else p.category "General";
    sku = p.sku;
    price = p.price;
    name = p.name;
    description = p.description;
  }

  grid_of : Wishlist → List (Product N) → Body N
  unfolding card_of
  grid_of wishes [] = no_products_found
  grid_of wishes (p ∷ products) = grid (map (card_of wishes) (p ∷ products))

  unfoldable pub unlisted : Option String → Body N → Body N
  unlisted none body = body
  unlisted (some message) body = if str_eq message "" then body else alert message

  unfoldable pub body_of : Browse N → Body N
  unfolding grid_of unlisted
  body_of s =
      let listed =
        grid_of s.wishes (processed_products to_lower compare s.filters s.listing.products) in
      if s.listing.loading then skeletons 6 else unlisted s.listing.error listed

  unfoldable pub quick_view_of : Browse N → Product N → QuickView N
  unfolding images thumbnails_from
  quick_view_of s p = record {
    image = get_elem? (images p) s.active_image_index;
    thumbnails = thumbnails_from s.active_image_index 0 (images p);
    category = p.category;
    price = p.price;
    description = p.description;
    is_fav = is_wishlisted p.id s.wishes;
    sku = p.sku;
    recommended =
        map (λ rec. (get_elem? (images rec) 0, rec.name, rec.price))
          (recommendations (some p) s.listing.products);
  }

  drawer_of : Browse N → Option (Product N) → Option (QuickView N)
  unfolding quick_view_of
  drawer_of s none = none
  drawer_of s (some p) = some (quick_view_of s p)

  title_of : Option (Product N) → String
  title_of none = "Product Quick View"
  title_of (some p) = or_else (some p.name) "Product Quick View"

  pub render : Browse N → View N
  unfolding body_of drawer_of title_of
  render s = record {
    chips =
        map (λ cat. (cat, str_eq s.filters.selected_category cat)) (categories s.listing.products);
    max_price = s.filters.max_price;
    body = body_of s;
    drawer_title = title_of s.selected_product;
    drawer = drawer_of s s.selected_product;
    import_form = s.form;
  }
