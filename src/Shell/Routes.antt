-- ===== src/Shell/Routes.antt =====
-- frontend/src/App.tsx, components/ProtectedRoute.tsx, hooks/useKeyboardShortcuts.ts and the links of
-- layouts/AppLayout.tsx: which page a path shows, to whom, and where the shortcuts lead.
pub mod Laws
use cloudscale_commerce.Prelude.{
  Bool, true, false, not, if◌then◌else◌, Option, none, some, List, [], ◌∷◌, any, String, str_eq,
}
use cloudscale_commerce.Api.Auth.{User, AuthState, logout}

-- The elements of the routes.
pub data Page : Type 0 where
  landing login dashboard catalog cart checkout orders inventory users : Page
  admin_dashboard tenant_admin settings unauthorized not_found : Page

-- The layout route that a page stands under.
pub data Access : Type 0 where
  open_to_all guest protected : Access

pub record Route : Type 0 where
  pub path : String
  pub access : Access
  pub page : Page

-- The routes but the fallback. Every path is static, so the router takes the one that is equal.
abbrev pub routes : List Route
routes =
    record { path = "/"; access = open_to_all; page = landing }
    ∷ record { path = "/login"; access = guest; page = login }
    ∷ record { path = "/dashboard"; access = protected; page = dashboard }
    ∷ record { path = "/products"; access = protected; page = catalog }
    ∷ record { path = "/cart"; access = protected; page = cart }
    ∷ record { path = "/checkout"; access = protected; page = checkout }
    ∷ record { path = "/orders"; access = protected; page = orders }
    ∷ record { path = "/inventory"; access = protected; page = inventory }
    ∷ record { path = "/users"; access = protected; page = users }
    ∷ record { path = "/admin"; access = protected; page = admin_dashboard }
    ∷ record { path = "/workspace"; access = protected; page = tenant_admin }
    ∷ record { path = "/settings"; access = protected; page = settings }
    ∷ record { path = "/unauthorized"; access = protected; page = unauthorized }
    ∷ record { path = "/404"; access = open_to_all; page = not_found }
    ∷ []

-- The first route with the path as the table writes it; the router also takes the path in another case
-- or with a slash at its end.
unfoldable pub route_at : List Route → String → Option Route
route_at [] path = none
route_at (r ∷ rest) path = if str_eq r.path path then some r else route_at rest path

-- What `ProtectedRoute` renders: the page below it, or a redirect.
pub data Guarded : Type 0 where
  outlet : Guarded
  navigate : String → Guarded

-- `allowedRoles && user && !allowedRoles.includes(user.role)`
is_refused : Option (List String) → Option User → Bool
is_refused (some roles) (some user) = not (any (λ role. str_eq role user.role) roles)
is_refused _ _ = false

unfoldable pub protected_route : (allowed_roles : Option (List String)) → AuthState → Guarded
unfolding is_refused
protected_route allowed_roles auth =
    if not auth.is_authenticated
    then navigate "/login"
    else if is_refused allowed_roles auth.user
    then navigate "/unauthorized"
    else outlet

-- What a visit of a path shows: a page, or another path to visit.
pub data Shown : Type 0 where
  page : Page → Shown
  redirect : String → Shown

unfoldable pub guarded : Guarded → Page → Shown
guarded outlet p = page p
guarded (navigate path) p = redirect path

unfoldable pub show : Access → Page → AuthState → Shown
unfolding guarded
show open_to_all p auth = page p
show guest p auth = page p
show protected p auth = guarded (protected_route none auth) p

unfoldable pub show_found : Option Route → AuthState → Shown
unfolding show
show_found none auth = redirect "/404"
show_found (some r) auth = show r.access r.page auth

unfoldable pub visit : AuthState → String → Shown
unfolding route_at show_found
visit auth path = show_found (route_at routes path) auth

-- `useKeyboardShortcuts`: where the key leads, `key` in lower case.
unfoldable pub shortcut : (alt : Bool) → (key : String) → Option String
shortcut alt key =
    if not alt
    then none
    else if str_eq key "d"
    then some "/"
    else if str_eq key "p"
    then some "/products"
    else if str_eq key "c"
    then some "/cart"
    else if str_eq key "o"
    then some "/orders"
    else if str_eq key "i"
    then some "/inventory"
    else if str_eq key "u"
    then some "/users"
    else none

-- The handler of the layout's button: the next state of the store, and where it leads.
unfoldable pub handle_logout : AuthState → AuthState × String
unfolding logout
handle_logout auth = (logout auth, "/login")
