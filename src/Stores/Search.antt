-- ===== src/Stores/Search.antt =====
-- frontend/src/stores/searchStore.ts: the recent searches, newest first.
pub mod Laws
use cloudscale_commerce.Prelude.{ℕ, Bool, not, if◌then◌else◌, List, [], ◌∷◌, filter, take}
use cloudscale_commerce.Text.{Text, text_eq, trim}

-- The state is `recentSearches`.
abbrev pub Searches : Type 0
Searches = List Text

abbrev pub max_searches : ℕ
max_searches = 8

is_empty : Text → Bool
is_empty s = text_eq s []

-- `to_lower` is `toLowerCase` of the runtime.
module _ (to_lower : Text → Text) where
  same_search : Text → Text → Bool
  same_search cleaned x = text_eq (to_lower x) (to_lower cleaned)

  unfoldable pub add_search : Text → Searches → Searches
  unfolding is_empty same_search
  add_search term current =
      let cleaned = trim term in
      let filtered = filter (λ x. not (same_search cleaned x)) current in
      if is_empty cleaned then current else take max_searches (cleaned ∷ filtered)

pub remove_search : Text → Searches → Searches
remove_search term current = filter (λ x. not (text_eq x term)) current

pub clear_history : Searches → Searches
clear_history current = []
