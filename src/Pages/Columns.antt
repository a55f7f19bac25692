-- ===== src/Pages/Columns.antt =====
-- The columns that frontend/src/pages/Inventory.tsx, Orders.tsx and Users.tsx give to
-- frontend/src/components/data/DataTable.tsx. Every accessor of theirs returns an element, which
-- `String` turns into the same text. `translate` is `t` of the translations, `number_text` is `String`
-- of a number.
use cloudscale_commerce.Prelude.{
  ◌≡◌, refl, true, false, if◌then◌else◌, Option, none, some, List, [], ◌∷◌, String,
}
use cloudscale_commerce.Number.{Number}
use cloudscale_commerce.Text.{Text, literal, text_eq, includes}
use cloudscale_commerce.Sort.{Sign}
use cloudscale_commerce.Tables.DataTable.{DataColumn, TableState, filtered}
use cloudscale_commerce.Tables.DataTable.Opaque.{filtered-AllShow}
use cloudscale_commerce.Pages.Inventory.{InventoryItem}
use cloudscale_commerce.Pages.Lists.{Order, User}

-- `String` of an element.
abbrev pub object_text : Text
object_text = literal "[object Object]"

-- A column whose accessor returns an element, and which is not kept from the search.
element_column : {T : Type 0} → (id : String) (header : Text) → Option (T → Text) → DataColumn T
element_column id header sort_text = record {
  id = id;
  header = header;
  text = λ row. object_text;
  sort_text = sort_text;
  searchable = true;
}

module _ (translate : String → Text) where
  pub inventory_columns :
      {N : Type 0}
      → ⦃num : Number N⦄ → (number_text : N → Text) → List (DataColumn (InventoryItem N))
  unfolding element_column
  inventory_columns ⦃num⦄ number_text =
      element_column "sku" (translate "inventory.sku") (some (λ row. literal row.sku))
      ∷ element_column "quantity" (translate "inventory.quantity")
          (some (λ row. number_text row.quantity))
      ∷ element_column "reserved" (literal "Reserved Stock")
          (some (λ row. number_text row.reserved))
      ∷ element_column "status" (translate "inventory.status")
          (some (λ row. if num.le row.quantity (num.decimal 5 0) then literal "0" else literal "1"))
      ∷ element_column "actions" (translate "common.actions") none
      ∷ []

  pub order_columns : {N : Type 0} → (number_text : N → Text) → List (DataColumn (Order N))
  unfolding element_column
  order_columns number_text =
      element_column "id" (translate "orders.orderId") (some (λ row. literal row.id))
      ∷ element_column "created_at" (translate "orders.date") (some (λ row. literal row.created_at))
      ∷ element_column "status" (translate "orders.status") (some (λ row. literal row.status))
      ∷ element_column "amount" (translate "orders.amount")
          (some (λ row. number_text row.total_amount))
      ∷ []

  pub user_columns : List (DataColumn User)
  unfolding element_column
  user_columns =
      element_column "name" (translate "users.name") (some (λ row. literal row.full_name))
      ∷ element_column "email" (translate "users.email") (some (λ row. literal row.email))
      ∷ element_column "role" (translate "users.role") (some (λ row. literal row.role))
      ∷ element_column "status" (translate "users.status")
          (some (λ row. if row.is_active then literal "1" else literal "0"))
      ∷ []

-- A search on one of the three pages for a text that is no part of the text of an element, both in lower
-- case, finds no item, order or user, whatever the rows hold.
pub filtered-columns :
    {N : Type 0} ⦃num : Number N⦄ (translate : String → Text) (number_text : N → Text)
    (to_lower : Text → Text) (compare : Text → Text → Sign) (s : TableState)
    (items : List (InventoryItem N)) (orders : List (Order N)) (users : List User)
    → text_eq s.search [] ≡ false
    → includes (to_lower object_text) (to_lower s.search) ≡ false
    → (filtered to_lower compare (inventory_columns translate number_text) s items ≡ [])
      × (filtered to_lower compare (order_columns translate number_text) s orders ≡ [])
      × (filtered to_lower compare (user_columns translate) s users ≡ [])
unfolding inventory_columns order_columns user_columns element_column
filtered-columns translate number_text to_lower compare s items orders users asks other = (
  filtered-AllShow object_text to_lower compare (inventory_columns translate number_text)
      ((λ row. refl), ((λ row. refl), ((λ row. refl), ((λ row. refl), ((λ row. refl), tt))))) s
      items asks other,
  filtered-AllShow object_text to_lower compare (order_columns translate number_text)
      ((λ row. refl), ((λ row. refl), ((λ row. refl), ((λ row. refl), tt)))) s orders asks other,
  filtered-AllShow object_text to_lower compare (user_columns translate)
      ((λ row. refl), ((λ row. refl), ((λ row. refl), ((λ row. refl), tt)))) s users asks other,
)
