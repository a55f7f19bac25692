-- ===== src/Stores/Tests.antt =====
-- Runs of the small stores, and the theorems about them at concrete states.
use cloudscale_commerce.Prelude.{
  ◌≡◌, refl, Bool, true, false, some, List, [], ◌∷◌, foldl, String, arith,
}
use cloudscale_commerce.Text.{Text, literal, trim, text_eq}
use cloudscale_commerce.Stores.Search
use cloudscale_commerce.Stores.Wishlist
use cloudscale_commerce.Stores.Wishlist.Wishes.{of_list, is_odd, toggle_all, of_list-toggle_all}
use cloudscale_commerce.Stores.Theme
use cloudscale_commerce.Stores.Notification.{NotificationItem, NotificationState, SocketMessage}

abbrev lower : Text → Text
lower s = s

abbrev searches : List Search.Laws.Action
searches =
    Search.Laws.add (literal " red shirt ")
    ∷ Search.Laws.add (literal "hat")
    ∷ Search.Laws.add (literal "red shirt")
    ∷ []

newest_first : foldl (Search.Laws.step lower) [] searches ≡ literal "red shirt" ∷ literal "hat" ∷ []
unfolding Search.Laws.step Search.add_search trim text_eq
newest_first = refl

abbrev toggles : List Wishlist.Laws.Action
toggles = Wishlist.Laws.toggle "p1" ∷ Wishlist.Laws.toggle "p2" ∷ Wishlist.Laws.toggle "p1" ∷ []

abbrev page : Theme.Document
page = record { theme = Theme.light; classes = "light" ∷ "js" ∷ [] }

abbrev alert : NotificationItem
alert = record {
  id = "1";
  title = "Stock Alert";
  message = "low";
  category = "inventory";
  read = false;
  timestamp = "t0";
}

abbrev inbox : NotificationState
inbox = record {
  notifications = alert ∷ [];
  preferences = record { order = true; inventory = true; system = true };
}

abbrev message : SocketMessage
message = record {
  kind = "notification";
  title = some "T";
  message = some "M";
  category = some "order";
}

abbrev no_name : String → Bool
no_name s = false

is_odd_p1 : (q : String) → is_odd q ("p1" ∷ "p2" ∷ "p2" ∷ []) ≡ is_odd q ("p2" ∷ "p1" ∷ "p2" ∷ [])
is_odd_p1 q = ground arith

of_list-toggle_all_example :
    of_list (toggle_all ("p1" ∷ "p2" ∷ "p2" ∷ []) ("p2" ∷ []))
    ≡ of_list (toggle_all ("p2" ∷ "p1" ∷ "p2" ∷ []) ("p2" ∷ []))
of_list-toggle_all_example =
    of_list-toggle_all ("p1" ∷ "p2" ∷ "p2" ∷ []) ("p2" ∷ "p1" ∷ "p2" ∷ []) ("p2" ∷ []) is_odd_p1
