-- ===== src/Shell/Routes/Laws.antt =====
-- Who sees what, and that no visit runs in a circle.
use mathlib.Core.Path.{subst}
use cloudscale_commerce.Prelude.{
  ◌≡◌, ◌≢◌, refl, Bool, true, false, Bool-cases, inl, inr, ◌⊎◌, if◌then◌else◌, Option, none, some,
  List, [], ◌∷◌, any, All, foldl, String, str_eq, arith,
}
use cloudscale_commerce.Api.Auth.{
  User, AuthState, IsConsistent, initial, step, Action, run-IsConsistent,
}
use cloudscale_commerce.Shell.Routes.{
  Page, Access, Route, routes, route_at, outlet, is_refused, protected_route, Shown, page, redirect,
  guarded, show, show_found, visit, shortcut, open_to_all, guest, protected,
}

-- A visit shows a page, or leads to a path that shows one.
abbrev pub IsSettled : AuthState → Shown → Type 0
IsSettled auth (page p) = Unit
IsSettled auth (redirect path) = (p : Page) × (visit auth path ≡ page p)

show-IsSettled : (a : Access) (p : Page) (auth : AuthState) → IsSettled auth (show a p auth)
unfolding show guarded protected_route is_refused visit route_at show_found
show-IsSettled open_to_all p auth = tt
show-IsSettled guest p auth = tt
show-IsSettled protected p auth = elim (Bool-cases auth.is_authenticated) [
  | inl signed_in ↦ rw signed_in tt
  | inr signed_out ↦ rw signed_out (Page.login, refl)
]

show_found-IsSettled : (r : Option Route) (auth : AuthState) → IsSettled auth (show_found r auth)
unfolding show_found visit route_at show
show_found-IsSettled none auth = (Page.not_found, refl)
show_found-IsSettled (some r) auth = show-IsSettled r.access r.page auth

-- Every visit comes to a page after one redirect at most, whoever is signed in.
pub visit-IsSettled : (auth : AuthState) (path : String) → IsSettled auth (visit auth path)
unfolding visit
visit-IsSettled auth path = show_found-IsSettled (route_at routes path) auth

-- The pages that a visitor sees who is not signed in.
abbrev pub IsPublic : Page → Type 0
IsPublic Page.landing = Unit
IsPublic Page.login = Unit
IsPublic Page.not_found = Unit
IsPublic _ = ⊥

show-IsPublic :
    (a : Access) (q p : Page) (auth : AuthState)
    → (a ≡ protected) ⊎ IsPublic q
    → auth.is_authenticated ≡ false
    → show a q auth ≡ page p
    → IsPublic p
unfolding show guarded protected_route
show-IsPublic open_to_all q p auth safe off shown = elim safe [
  | inl wrong ↦ cc
  | inr good ↦ let same : q ≡ p = cc in subst IsPublic same good
]
show-IsPublic guest q p auth safe off shown = elim safe [
  | inl wrong ↦ cc
  | inr good ↦ let same : q ≡ p = cc in subst IsPublic same good
]
show-IsPublic protected q p auth safe off shown =
    let wrong : redirect "/login" ≡ page p = rw off at shown in cc

-- Whether the role is among the allowed ones.
abbrev pub IsAllowed : List String → User → Type 0
IsAllowed roles user = any (λ role. str_eq role user.role) roles ≡ true

protected_route-IsAllowed :
    (roles : List String) (auth : AuthState)
    → IsConsistent auth
    → protected_route (some roles) auth ≡ outlet
    → (user : User) × (auth.user ≡ some user) × IsAllowed roles user
unfolding protected_route is_refused
protected_route-IsAllowed roles auth c passed = elim (c.signed_in) [
  | inl (on, (user, here), access, refresh) ↦ (user, here, ground arith)
  | inr (off, gone) ↦ ground arith
]

routes-IsPublic :
    (rs : List Route) (path : String) (p : Page) (auth : AuthState)
    → All (λ r. (r.access ≡ protected) ⊎ IsPublic r.page) rs
    → auth.is_authenticated ≡ false
    → show_found (route_at rs path) auth ≡ page p
    → IsPublic p
unfolding route_at show_found
routes-IsPublic [] path p auth safe off shown = cc
routes-IsPublic (r ∷ rs) path p auth (safe, rest) off shown =
    elim (Bool-cases (str_eq r.path path)) [
      | inl here ↦ show-IsPublic r.access r.page p auth safe off (rw here at shown)
      | inr there ↦ routes-IsPublic rs path p auth rest off (rw there at shown)
    ]

pub visit-IsPublic :
    (auth : AuthState) (path : String) (p : Page)
    → auth.is_authenticated ≡ false
    → visit auth path ≡ page p
    → IsPublic p
unfolding visit
visit-IsPublic auth path p off shown =
    routes-IsPublic routes path p auth
      (
        inr tt,
        (
          inr tt,
          (
            inl refl,
            (
              inl refl,
              (
                inl refl,
                (
                  inl refl,
                  (
                    inl refl,
                    (
                      inl refl,
                      (inl refl, (inl refl, (inl refl, (inl refl, (inl refl, (inr tt, tt)))))),
                    ),
                  ),
                ),
              ),
            ),
          ),
        ),
      )
      off shown

-- However the store came to its state, a guard with a list of roles lets only a signed-in user pass
-- whose role is on the list.
pub run-IsAllowed :
    (roles : List String) (calls : List Action)
    → protected_route (some roles) (foldl step initial calls) ≡ outlet
    → (user : User) × ((foldl step initial calls).user ≡ some user) × IsAllowed roles user
run-IsAllowed roles calls =
    protected_route-IsAllowed roles (foldl step initial calls) (run-IsConsistent calls)

chosen :
    (P : String → Type 0) (b : Bool) (q path : String) (rest : Option String)
    → P q
    → (rest ≡ some path → P path)
    → (if b then some q else rest) ≡ some path
    → P path
chosen P true q path rest here there h = let same : q ≡ path = cc in subst P same here
chosen P false q path rest here there h = there h

pub show-protected :
    (auth : AuthState) (p : Page) → auth.is_authenticated ≡ true → show protected p auth ≡ page p
unfolding show guarded protected_route is_refused
show-protected auth p on = rw on refl

-- A page of the program, not the one for unknown paths.
abbrev pub IsShown : AuthState → String → Type 0
IsShown auth path = (p : Page) × (visit auth path ≡ page p) × (p ≢ Page.not_found)

-- Every shortcut leads a signed-in user to a page that is there.
pub visit-shortcut :
    (alt : Bool) (key path : String) (auth : AuthState)
    → auth.is_authenticated ≡ true
    → shortcut alt key ≡ some path
    → IsShown auth path
unfolding visit shortcut route_at show_found show
visit-shortcut false key path auth on h = cc
visit-shortcut true key path auth on h =
    chosen (IsShown auth) _ "/" path _ (Page.landing, refl, λ e. cc)
      (chosen (IsShown auth) _ "/products" path _ (Page.catalog, show-protected auth _ on, λ e. cc)
        (chosen (IsShown auth) _ "/cart" path _ (Page.cart, show-protected auth _ on, λ e. cc)
          (chosen (IsShown auth) _ "/orders" path _ (Page.orders, show-protected auth _ on, λ e. cc)
            (chosen (IsShown auth) _ "/inventory" path _
              (Page.inventory, show-protected auth _ on, λ e. cc)
              (chosen (IsShown auth) _ "/users" path _
                (Page.users, show-protected auth _ on, λ e. cc)
                (λ (left : none ≡ some path). cc))))))
      h
