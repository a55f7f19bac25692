-- ===== src/Pages/Inventory.antt =====
-- frontend/src/pages/Inventory.tsx and Orders.tsx: the list that is fetched, and the dialog that
-- restocks an item. `translate` is `t` of the translations, `shown` the text of a number.
pub mod Laws
use Prim.Native.String
use cloudscale_commerce.Prelude.{
  Bool, true, false, not, ◌||◌, if◌then◌else◌, Option, none, some, List, [], ◌∷◌, ◌++◌, String,
}
use cloudscale_commerce.Number.{Number}
use cloudscale_commerce.Stores.Notification.{NotificationState, add_notification}

pub record InventoryItem (N : Type 0) : Type 0 where
  pub id : String
  pub sku : String
  pub quantity : N
  pub reserved : N

-- What both pages keep of the fetch.
pub record Listing (A : Type 0) : Type 0 where
  pub items : List A
  pub loading : Bool
  pub error : Option String

pub start_fetch : {A : Type 0} → Listing A → Listing A
start_fetch s = record s { loading = true; error = none }

-- `res.data || []`, or the call fails.
pub fetched :
    {A : Type 0} (translate : String → String) → Option (Option (List A)) → Listing A → Listing A
fetched translate none s = record s { error = some (translate "common.error"); loading = false }
fetched translate (some none) s = record s { items = []; loading = false }
fetched translate (some (some items)) s = record s { items = items; loading = false }

pub record Restock (N : Type 0) : Type 0 where
  pub sku : String
  pub quantity : N

-- Where `handleRestock` stands.
pub data Phase (N : Type 0) : Type 0 where
  idle : Phase N
  posting : Restock N → Phase N
  fetching : Phase N

pub record Inventory (N : Type 0) : Type 0 where
  pub listing : Listing (InventoryItem N)
  pub selected_item : Option (InventoryItem N)
  pub restock_qty : N
  pub updating : Bool
  pub phase : Phase N
  pub inbox : NotificationState

pub data Call (N : Type 0) : Type 0 where
  get_inventory : Call N
  post_restock : Restock N → Call N

pub data Event (N : Type 0) : Type 0 where
  select : InventoryItem N → Event N
  close : Event N
  set_qty : N → Event N
  refresh : Event N
  refreshed : Option (Option (List (InventoryItem N))) → Event N
  confirm : Event N
  restocked : (is_accepted : Bool) → Event N
  restock_refreshed : Option (Option (List (InventoryItem N))) → Event N

pub initial : {N : Type 0} → ⦃num : Number N⦄ → NotificationState → Inventory N
initial {N} ⦃num⦄ inbox = record {
  listing = record { items = []; loading = true; error = none };
  selected_item = none;
  restock_qty = num.decimal 10 0;
  updating = false;
  phase = idle;
  inbox = inbox;
}

module _ {N : Type 0} (inherited : String → Bool) (shown : N → String) (translate : String → String)
    (new_id now : String) where
  notify : (title message : String) → Inventory N → Inventory N
  notify title message s = record s {
    inbox = (add_notification inherited new_id now title message "inventory" s.inbox).0;
  }

  -- The start of `handleRestock`; the button is off while it runs.
  on_confirm : Option (InventoryItem N) → Inventory N → Inventory N × List (Call N)
  on_confirm none s = (s, [])
  on_confirm (some item) s =
      let restock : Restock N = record { sku = item.sku; quantity = s.restock_qty } in
      (record s { updating = true; phase = posting restock }, post_restock restock ∷ [])

  on_restocked : (is_accepted : Bool) → Phase N → Inventory N → Inventory N × List (Call N)
  unfolding notify start_fetch
  on_restocked true (posting restock) s =
      let told =
        notify "Stock Updated"
          (String.◌++◌ "Successfully restocked SKU: " (
            String.◌++◌ restock.sku
              (String.◌++◌ " by " (String.◌++◌ (shown restock.quantity) "."))))
          s in
      (
        record told { selected_item = none; listing = start_fetch s.listing; phase = fetching },
        get_inventory ∷ [],
      )
  on_restocked false (posting restock) s = (
    record (notify "Restock Failed" "Failed to restock inventory item. Please try again." s) {
      updating = false;
      phase = idle;
    },
    [],
  )
  on_restocked is_accepted _ s = (s, [])

  on_refreshed : Option (Option (List (InventoryItem N))) → Phase N → Inventory N → Inventory N
  unfolding fetched
  on_refreshed answer fetching s = record s {
    listing = fetched translate answer s.listing;
    updating = false;
    phase = idle;
  }
  on_refreshed answer _ s = s

  pub step : Event N → Inventory N → Inventory N × List (Call N)
  unfolding on_confirm on_restocked on_refreshed start_fetch fetched
  step (select item) s = (record s { selected_item = some item }, [])
  step close s = (record s { selected_item = none }, [])
  step (set_qty quantity) s = (record s { restock_qty = quantity }, [])
  step refresh s = (record s { listing = start_fetch s.listing }, get_inventory ∷ [])
  step (refreshed answer) s = (record s { listing = fetched translate answer s.listing }, [])
  step confirm s = if s.updating then (s, []) else on_confirm s.selected_item s
  step (restocked is_accepted) s = on_restocked is_accepted s.phase s
  step (restock_refreshed answer) s = (on_refreshed answer s.phase s, [])

  pub run : List (Event N) → Inventory N → Inventory N × List (Call N)
  unfolding step
  run [] s = (s, [])
  run (e ∷ events) s =
      let here = step e s in let later = run events (here.0) in (later.0, here.1 ++ later.1)
