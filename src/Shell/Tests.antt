-- ===== src/Shell/Tests.antt =====
-- The shell at concrete inputs.
use cloudscale_commerce.Prelude.{
  All, String, Option, ℕ, ◌≡◌, refl, true, false, none, some, List, [], ◌∷◌, if◌then◌else◌, ◌==◌,
  Bool, arith,
}
use cloudscale_commerce.Number.{fixed_point}
use cloudscale_commerce.Text.{Text}
use cloudscale_commerce.Api.Auth.{AuthState}
use cloudscale_commerce.Shell.Palette.{CommandItem, commands}
use cloudscale_commerce.Shell.Layout
use cloudscale_commerce.Shell.Layout.Links
use cloudscale_commerce.Shell.Seo
use cloudscale_commerce.Shell.Routes
use cloudscale_commerce.Shell.Routes.Laws.{IsSettled, visit-IsSettled}
use cloudscale_commerce.Shell.Boundaries.Retry
use cloudscale_commerce.Shell.FocusTrap
use cloudscale_commerce.Shell.Palette.{Palette}

abbrev signed_out : AuthState
signed_out = record {
  user = none;
  access_token = none;
  refresh_token = none;
  is_authenticated = false;
}

-- A guarded page leads to the login.
cart_redirects : Routes.visit signed_out "/cart" ≡ Routes.redirect "/login"
unfolding Routes.visit Routes.route_at Routes.show_found Routes.show Routes.guarded
    Routes.protected_route
cart_redirects = refl

visit-IsSettled_example : IsSettled signed_out (Routes.visit signed_out "/cart")
visit-IsSettled_example = visit-IsSettled signed_out "/cart"

abbrev failures : List Retry.Event
failures = Retry.thrown "a" ∷ Retry.pressed ∷ []

abbrev lower : Text → Text
lower t = t

abbrev opened : Palette
opened = record { is_open = true; query = []; active_index = 5; recent = [] }

-- Two elements, each the neighbour of the other.
abbrev neighbour : Bool → ℕ → ℕ
neighbour shift_key x = if x == 1 then 2 else 1

neighbour-IsNeighbour : FocusTrap.IsNeighbour neighbour 1 (2 ∷ [])
unfolding FocusTrap.is_inside FocusTrap.last_of
neighbour-IsNeighbour = record {
  forward = λ x inside inner. ground arith;
  backward = λ x inside inner. ground arith;
}

presses-trap_example :
    let keys = false ∷ false ∷ true ∷ [] in
    let after = FocusTrap.presses neighbour (1 ∷ 2 ∷ []) keys (FocusTrap.trap (1 ∷ 2 ∷ []) 7) in
    (FocusTrap.is_inside after.active_element (1 ∷ 2 ∷ []) ≡ true)
    × ((FocusTrap.release after).active_element ≡ 7)
presses-trap_example =
    FocusTrap.presses-trap neighbour 1 (2 ∷ []) neighbour-IsNeighbour (false ∷ false ∷ true ∷ []) 7

abbrev stringify : String → String
stringify text = text

abbrev is_absolute : String → Bool
is_absolute address = false

abbrev page_of : (title canonical : Option String) → Seo.SeoProps String
page_of title canonical = record {
  title = title;
  description = "A shop.";
  canonical = canonical;
  og_image = "/og-image.png";
  og_type = "website";
  twitter_card = "summary";
  structured_data = some "{}";
  noindex = false;
}

abbrev empty_head : Seo.Head
empty_head = record { title = ""; metas = []; links = []; structured = [] }

effect-effect_example :
    let a = page_of (some "Catalog") (some "https://shop/products") in
    let b = page_of none none in
    let both =
      Seo.effect stringify is_absolute "https://shop" "https://shop/cart" b
        (Seo.effect stringify is_absolute "https://shop" "https://shop/products" a empty_head) in
    let alone = Seo.effect stringify is_absolute "https://shop" "https://shop/cart" b empty_head in
    (both.title ≡ alone.title)
    × (Seo.content_of true "og:title" both.metas ≡ Seo.content_of true "og:title" alone.metas)
    × (both.structured ≡ alone.structured)
effect-effect_example =
    Seo.Laws.effect-effect stringify is_absolute "https://shop" "https://shop/products"
      "https://shop/cart" (page_of (some "Catalog") (some "https://shop/products"))
      (page_of none none) empty_head true "og:title" (omega arith)

effect-canonical_example :
    let a = page_of (some "Catalog") (some "https://shop/products") in
    let b = page_of none none in
    let both =
      Seo.effect stringify is_absolute "https://shop" "https://shop/cart" b
        (Seo.effect stringify is_absolute "https://shop" "https://shop/products" a empty_head) in
    (Seo.href_of "canonical" both.links ≡ some "https://shop/products")
    × (Seo.content_of true "og:url" both.metas ≡ some "https://shop/cart")
unfolding Seo.given
effect-canonical_example =
    Seo.Laws.effect-canonical stringify is_absolute "https://shop" "https://shop/products"
      "https://shop/cart" (page_of (some "Catalog") (some "https://shop/products"))
      (page_of none none) empty_head "https://shop/products" refl refl refl

abbrev session : AuthState
session = record {
  user = none;
  access_token = some "a1";
  refresh_token = some "r1";
  is_authenticated = true;
}

visit-Reaches_example :
    All (λ (link : String × String). Links.Reaches session link.0) Layout.sidebar_links
    × All (λ (command : CommandItem). Links.Reaches session command.path) commands
    × Links.ReachesIfAny session (Routes.shortcut true "i")
visit-Reaches_example = Links.visit-Reaches session true "i" refl
