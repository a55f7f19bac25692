-- ===== src/Pages/Inventory/Laws.antt =====
-- The dialog while its two calls run.
use Prim.Native.String
use cloudscale_commerce.Prelude.{
  ◌≡◌, refl, ap, sym, ◌∙◌, Bool, true, false, Bool-cases, inl, inr, Option, none, some, List, [],
  ◌∷◌, ◌++◌, All, String,
}
use cloudscale_commerce.Stores.Notification.{add_notification}
use cloudscale_commerce.Pages.Inventory.{
  InventoryItem, Restock, Phase, idle, posting, fetching, Inventory, Event, select, close, set_qty,
  refresh, refreshed, confirm, restocked, restock_refreshed, notify, on_confirm, on_restocked,
  on_refreshed, step, run,
}

module _ {N : Type 0} where
  abbrev pub is_waiting : Phase N → Bool
  is_waiting idle = false
  is_waiting _ = true

  -- The button turns exactly as long as a call of the dialog runs.
  abbrev pub IsSettled : Inventory N → Type 0
  IsSettled s = s.updating ≡ is_waiting s.phase

  -- What is not the dialog's own call.
  abbrev pub IsEdit : Event N → Type 0
  IsEdit confirm = ⊥
  IsEdit (restocked is_accepted) = ⊥
  IsEdit (restock_refreshed answer) = ⊥
  IsEdit _ = Unit

module _ {N : Type 0} (inherited : String → Bool) (shown : N → String) (translate : String → String)
    (new_id now : String) where
  restocked-IsSettled :
      (is_accepted : Bool) (p : Phase N) (s : Inventory N)
      → s.phase ≡ p
      → IsSettled s
      → IsSettled (on_restocked inherited shown translate new_id now is_accepted p s).0
  unfolding on_restocked notify
  restocked-IsSettled true (posting restock) s at h = h ∙ ap is_waiting at
  restocked-IsSettled false (posting restock) s at h = refl
  restocked-IsSettled true idle s at h = h
  restocked-IsSettled false idle s at h = h
  restocked-IsSettled true fetching s at h = h
  restocked-IsSettled false fetching s at h = h

  refreshed-IsSettled :
      (answer : Option (Option (List (InventoryItem N)))) (p : Phase N) (s : Inventory N)
      → IsSettled s
      → IsSettled (on_refreshed inherited shown translate new_id now answer p s)
  unfolding on_refreshed
  refreshed-IsSettled answer fetching s h = refl
  refreshed-IsSettled answer idle s h = h
  refreshed-IsSettled answer (posting restock) s h = h

  confirm-IsSettled :
      (selected : Option (InventoryItem N)) (s : Inventory N)
      → IsSettled s
      → IsSettled (on_confirm inherited shown translate new_id now selected s).0
  unfolding on_confirm
  confirm-IsSettled none s h = h
  confirm-IsSettled (some item) s h = refl

  step-IsSettled :
      (e : Event N) (s : Inventory N)
      → IsSettled s
      → IsSettled (step inherited shown translate new_id now e s).0
  unfolding step
  step-IsSettled (select item) s h = h
  step-IsSettled close s h = h
  step-IsSettled (set_qty quantity) s h = h
  step-IsSettled refresh s h = h
  step-IsSettled (refreshed answer) s h = h
  step-IsSettled confirm s h = elim (Bool-cases s.updating) [
    | inl busy ↦ simp busy (sym busy ∙ h)
    | inr free ↦ simp free (confirm-IsSettled s.selected_item s h)
  ]
  step-IsSettled (restocked is_accepted) s h = restocked-IsSettled is_accepted s.phase s refl h
  step-IsSettled (restock_refreshed answer) s h = refreshed-IsSettled answer s.phase s h

  -- From a page whose button turns exactly as long as a call of the dialog runs, as on the page when it
  -- is opened, and whatever happens on it: the same holds, so no outcome leaves the button off.
  pub run-IsSettled :
      (events : List (Event N)) (s : Inventory N)
      → IsSettled s
      → IsSettled (run inherited shown translate new_id now events s).0
  unfolding run
  run-IsSettled [] s h = h
  run-IsSettled (e ∷ events) s h =
      run-IsSettled events (step inherited shown translate new_id now e s).0 (step-IsSettled e s h)

  -- Edits while the call runs, and then its success.
  edits-restocked :
      (edits : List (Event N)) (restock : Restock N) (s : Inventory N)
      → s.phase ≡ posting restock
      → All IsEdit edits
      → let after = (run inherited shown translate new_id now (edits ++ restocked true ∷ []) s).0 in
        (after.inbox
          ≡ (add_notification inherited new_id now "Stock Updated"
              (String.◌++◌ "Successfully restocked SKU: " (
                String.◌++◌ restock.sku
                  (String.◌++◌ " by " (String.◌++◌ (shown restock.quantity) "."))))
              "inventory"
              s.inbox).0)
        × (after.selected_item ≡ none)
  unfolding run step on_restocked notify
  edits-restocked [] restock s at h = rw at (refl, refl)
  edits-restocked (select item ∷ edits) restock s at (p, h) = edits-restocked edits restock _ at h
  edits-restocked (close ∷ edits) restock s at (p, h) = edits-restocked edits restock _ at h
  edits-restocked (set_qty quantity ∷ edits) restock s at (p, h) =
      edits-restocked edits restock _ at h
  edits-restocked (refresh ∷ edits) restock s at (p, h) = edits-restocked edits restock _ at h
  edits-restocked (refreshed answer ∷ edits) restock s at (p, h) =
      edits-restocked edits restock _ at h
  edits-restocked (confirm ∷ edits) restock s at (p, h) = absurd p
  edits-restocked (restocked is_accepted ∷ edits) restock s at (p, h) = absurd p
  edits-restocked (restock_refreshed answer ∷ edits) restock s at (p, h) = absurd p

  -- An item is selected, no call of the dialog runs, and it is confirmed. Whatever is selected, closed,
  -- typed or fetched until the restock is accepted: the notification names the item and the quantity
  -- that were confirmed, and the dialog is closed.
  pub run-confirmed :
      (s : Inventory N) (item : InventoryItem N) (edits : List (Event N))
      → s.selected_item ≡ some item
      → s.updating ≡ false
      → All IsEdit edits
      → let after =
          (run inherited shown translate new_id now
            (confirm ∷ (edits ++ restocked true ∷ []))
            s).0 in
        (after.inbox
          ≡ (add_notification inherited new_id now "Stock Updated"
              (String.◌++◌ "Successfully restocked SKU: "
                (String.◌++◌ item.sku (String.◌++◌ " by " (String.◌++◌ (shown s.restock_qty) "."))))
              "inventory"
              s.inbox).0)
        × (after.selected_item ≡ none)
  unfolding run step on_confirm
  run-confirmed s item edits chosen free h =
      rw (chosen, free)
        (edits-restocked edits (record { sku = item.sku; quantity = s.restock_qty }) _ refl h)
