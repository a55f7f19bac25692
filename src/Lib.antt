-- ===== src/Lib.antt =====
-- The storefront of CloudScale Commerce (frontend/src), modelled from its TypeScript.
--
-- The storefront is a React application over zustand stores and two clients of the backend. The
-- stores keep the state of a session; the HTTP client (frontend/src/lib/api-client.ts) reads the
-- auth store and the tenant store for the headers of a request and writes the auth store when it
-- rotates the tokens; the WebSocket client (frontend/src/lib/websocket.ts) tells its listeners of
-- each change, and the notification store is one of them. The pages read the stores and call their
-- actions.
--
-- A store is a record, an action is a function from a state to a state, and what an action asks of
-- the runtime (a request, a timer, a toast) is a value that it returns beside the state.
-- Properties of any use of a store are stated over a list of actions from the initial state, or
-- over a relation of steps where answers arrive in any order.
-- * Cart models frontend/src/stores/cartStore.ts: `add_item`, `remove_item`, `update_quantity`,
--   `apply_coupon`, `clear_cart` and `get_cart_totals` are its actions, `CartState` is its state.
--   Cart/Lines looks at the cart product by product, Cart/Invariant at runs, and Cart/Totals at the
--   amounts.
-- * Stores models the smaller stores: Stores/Search (frontend/src/stores/searchStore.ts),
--   Stores/Wishlist (frontend/src/stores/wishlistStore.ts; Stores/Wishlist/Wishes is the list as a
--   set, a quotient), Stores/Tenant (frontend/src/stores/tenantStore.ts), Stores/Theme
--   (frontend/src/stores/themeStore.ts) and Stores/Notification
--   (frontend/src/stores/notificationStore.ts, with its subscription to the socket).
-- * Api/Auth models frontend/src/stores/authStore.ts, Api/Errors frontend/src/lib/errorMapper.ts,
--   Api/Headers the request interceptor of frontend/src/lib/api-client.ts and `getCSRFToken` of
--   frontend/src/lib/security.ts, and Api/Client the response interceptor, whose handler is split
--   at its `await` into `on_error`, `on_refreshed` and `on_refresh_failed`. Api/Client/Steps puts
--   it among its callers; Api/Client/Flight, Settled and Stuck are about its runs.
-- * Socket models the class of frontend/src/lib/websocket.ts. A WebSocket, a timer and a listener
--   are numbers, and the events of the browser are the events of Socket/Steps. Socket/Accounts,
--   Socket/Bounds and Socket/Losses are about its timers and its attempts.
-- * Fuzzy models frontend/src/lib/fuzzySearch.ts, with Fuzzy/Scan for the loop, Fuzzy/Scores for
--   the score and Fuzzy/Ranking for the results.
-- * Security models frontend/src/lib/security.ts: Security/Escape is `sanitizeHTML`,
--   Security/Checksum is `computeHash`, and Security/Storage is `secureStorage`.
-- * Tables models the tables: Tables/Virtualizer is frontend/src/hooks/useVirtualizer.ts, and
--   Tables/DataTable is the state and the handlers of frontend/src/components/data/DataTable.tsx,
--   with Tables/DataTable/View for what it draws, Tables/DataTable/Pages for the pages,
--   Tables/DataTable/Clicks and Tables/DataTable/Boxes for the boxes, the headers and the footer,
--   and Tables/DataTable/Opaque for the search of columns that show all rows alike. Tables/Csv is
--   the export of that table, with a reader in Tables/Csv/Reads, and Tables/VirtualTable is
--   frontend/src/components/data/VirtualDataTable.tsx.
-- * Config models frontend/src/lib/config.ts, and Config/Loads is about loads in a row.
-- * Shell is what stands around the pages: Shell/Routes is the table of the routes of
--   frontend/src/App.tsx with frontend/src/components/ProtectedRoute.tsx, the shortcuts of
--   frontend/src/hooks/useKeyboardShortcuts.ts and the logout of
--   frontend/src/layouts/AppLayout.tsx; Shell/Boundaries is RetryBoundary.tsx and
--   ErrorBoundary.tsx, Shell/Overlays is OnboardingTour.tsx and OfflineBanner.tsx, Shell/Palette is
--   CommandPalette.tsx and Shell/Showcase is ShowcasePanel.tsx, all of frontend/src/components;
--   Shell/FocusTrap is frontend/src/hooks/useFocusTrap.ts, and Shell/Layout the rest of
--   AppLayout.tsx with frontend/src/stores/uiStore.ts, Shell/Layout/Links for where the links lead.
--   Shell/Seo is frontend/src/components/SEO.tsx.
-- * Pages is the state and the handlers of pages of frontend/src/pages: Pages/Checkout is
--   Checkout.tsx, whose `onSubmit` is split at its two `await`s, with Pages/Autosave for
--   frontend/src/lib/useFormAutosave.ts and Pages/Checkout/Basket for what its calls ask for;
--   Pages/Catalog is Catalog.tsx, with every click in Pages/Catalog/Browse, what is drawn in
--   Pages/Catalog/View, and runs of the page in Pages/Catalog/Shows; Pages/Login is Login.tsx,
--   Pages/Inventory is Inventory.tsx, Pages/Tenant is TenantAdmin.tsx, with its tabs and cards in
--   Pages/Tenant/View and its upgrades in Pages/Tenant/Upgrades; Pages/CartPage is Cart.tsx,
--   Pages/Lists is Orders.tsx and Users.tsx, Pages/Columns the columns that three of the pages give
--   to their tables, and Pages/Dashboard is Dashboard.tsx, drawn in Pages/Dashboard/View.
--   Pages/Answers is what they read of an error of the HTTP client.
-- * Ui is Pagination.tsx, FileUpload.tsx, Accordion.tsx, SearchBox.tsx, Dropdown.tsx, Tabs.tsx,
--   Tooltip.tsx, Toast.tsx (as Ui/Toasts) and Modal.tsx, whose effects Drawer.tsx repeats (as
--   Ui/Dialogs), of frontend/src/components/ui.
-- * App puts the parts together: App/Session is the session as the guard of the routes and the
--   request interceptor read it, and App/Order an order whose session runs out while it is placed.
-- * I18n models frontend/src/i18n/index.tsx, and Observability frontend/src/lib/observability.ts.
-- * Sort is the runtime's stable sort, which the tables and the catalog call.
-- * Number, Text and Prelude are shared. Text is a JavaScript string as the list of its UTF-16 code
--   units, where the source looks into a string; elsewhere a string is opaque and only compared.
--
-- JavaScript's numbers are the parameter `Number`: Number states the laws of IEEE 754 arithmetic
-- that the theorems use, monotone rounding among them, and meets them by a fixed-point arithmetic,
-- at which the examples run. The checksum is on 32-bit words, as `^` and `>>> 0` make it.
-- `toLowerCase`, `toUpperCase`, `localeCompare`, `JSON` and base64 belong to the runtime and are
-- arguments, as is whether `localStorage` takes a text. Positions and heights of the long lists are
-- whole pixels, and a path is taken as the table of the routes writes it, where the router also takes
-- it in another case or with a slash at its end.
--
-- The loop of the fuzzy score is structural recursion on the target, so it needs no fuel.
-- `hex_from` takes eight rounds, one for each digit of a 32-bit word, and Security/Checksum/Hex
-- shows that eight are enough.
--
-- Not modelled: the styles, the markup beyond the views named here, the pages and components that
-- are nothing else, the listeners for scrolling, the other hooks
-- and helpers, zustand, the form library, axios and React themselves, the persistence
-- of the stores, the clock and random ids (arguments where they are used), the services in Python,
-- and the deployment.
mod Prelude
pub mod Number
pub mod Text
pub mod Ui
pub mod Sort
pub mod Cart
pub mod Stores
pub mod Api
pub mod Socket
pub mod Fuzzy
pub mod Security
pub mod Tables
pub mod Config
pub mod Shell
pub mod I18n
pub mod Observability
pub mod Pages
pub mod App
