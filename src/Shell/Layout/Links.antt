-- ===== src/Shell/Layout/Links.antt =====
-- Where the links of the side bar, the commands of the palette and the shortcuts lead, by the routes of
-- frontend/src/App.tsx.
use cloudscale_commerce.Prelude.{
  ◌≡◌, refl, Bool, true, false, not, if◌then◌else◌, Option, none, some, All, String, str_eq,
}
use cloudscale_commerce.Api.Auth.{AuthState}
use cloudscale_commerce.Shell.Routes.{
  Page, landing, dashboard, catalog, cart, checkout, orders, inventory, users, admin_dashboard,
  tenant_admin, settings, not_found, visit, page, protected_route, shortcut,
}
use cloudscale_commerce.Shell.Palette.{CommandItem, commands}
use cloudscale_commerce.Shell.Layout.{sidebar_links}

unfoldable pub is_missing : Page → Bool
is_missing not_found = true
is_missing _ = false

-- A visit of the path shows a page, and not the one for paths that there are not.
abbrev pub Reaches : AuthState → String → Type 0
Reaches auth path = (p : Page) × (visit auth path ≡ page p) × (is_missing p ≡ false)

abbrev pub ReachesIfAny : AuthState → Option String → Type 0
ReachesIfAny auth none = Unit
ReachesIfAny auth (some path) = Reaches auth path

either_reaches :
    (auth : AuthState) (b : Bool) (this that : Option String)
    → ReachesIfAny auth this
    → ReachesIfAny auth that
    → ReachesIfAny auth (if b then this else that)
either_reaches auth true this that here there = here
either_reaches auth false this that here there = there

module _ (auth : AuthState) (signed_in : auth.is_authenticated ≡ true) where
  shortcut-ReachesIfAny : (alt : Bool) (key : String) → ReachesIfAny auth (shortcut alt key)
  unfolding shortcut visit is_missing protected_route
  shortcut-ReachesIfAny alt key = either_reaches auth (not alt) _ _ tt (
      either_reaches auth (str_eq key "d") _ _ (landing, refl, refl)
        (either_reaches auth (str_eq key "p") _ _ (rw signed_in (catalog, refl, refl)) (
          either_reaches auth (str_eq key "c") _ _ (rw signed_in (cart, refl, refl)) (
            either_reaches auth (str_eq key "o") _ _ (rw signed_in (orders, refl, refl)) (
              either_reaches auth (str_eq key "i") _ _ (rw signed_in (inventory, refl, refl)) (
                either_reaches auth (str_eq key "u") _ _ (rw signed_in (users, refl, refl)) tt))))))

  sidebar_links-Reaches : All (λ (link : String × String). Reaches auth link.0) sidebar_links
  unfolding visit is_missing protected_route
  sidebar_links-Reaches = rw signed_in (
    (landing, refl, refl),
    (
      (dashboard, refl, refl),
      (
        (catalog, refl, refl),
        (
          (cart, refl, refl),
          (
            (orders, refl, refl),
            (
              (inventory, refl, refl),
              (
                (users, refl, refl),
                (
                  (admin_dashboard, refl, refl),
                  ((tenant_admin, refl, refl), ((settings, refl, refl), tt)),
                ),
              ),
            ),
          ),
        ),
      ),
    ),
  )

  commands-Reaches : All (λ (command : CommandItem). Reaches auth command.path) commands
  unfolding visit is_missing protected_route
  commands-Reaches = rw signed_in (
    (catalog, refl, refl),
    (
      (checkout, refl, refl),
      (
        (orders, refl, refl),
        ((inventory, refl, refl), ((users, refl, refl), ((admin_dashboard, refl, refl), tt))),
      ),
    ),
  )

-- Whoever is signed in reaches a page of the shop, and no redirect and not the page for missing ones, by
-- every link of the side bar, every command of the palette, and every shortcut that leads anywhere.
pub visit-Reaches :
    (auth : AuthState) (alt : Bool) (key : String)
    → auth.is_authenticated ≡ true
    → All (λ (link : String × String). Reaches auth link.0) sidebar_links
      × All (λ (command : CommandItem). Reaches auth command.path) commands
      × ReachesIfAny auth (shortcut alt key)
visit-Reaches auth alt key signed_in = (
  sidebar_links-Reaches auth signed_in,
  commands-Reaches auth signed_in,
  shortcut-ReachesIfAny auth signed_in alt key,
)
