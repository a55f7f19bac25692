-- ===== src/Pages/Lists.antt =====
-- frontend/src/pages/Orders.tsx and Users.tsx: the two lists, with what they show when the call fails.
-- `to_lower` is `toLowerCase`, `translate` is `t` of the translations.
use cloudscale_commerce.Prelude.{
  Bool, true, false, ◌||◌, if◌then◌else◌, Option, none, some, List, [], ◌∷◌, String, str_eq,
}

pub record Order (N : Type 0) : Type 0 where
  pub id : String
  pub status : String
  pub total_amount : N
  pub created_at : String

pub record Orders (N : Type 0) : Type 0 where
  pub orders : List (Order N)
  pub loading : Bool
  pub error : Option String

pub data BadgeVariant : Type 0 where
  success warning destructive info : BadgeVariant

-- The variant of the badge of a status.
pub variant_of : (to_lower : String → String) → String → BadgeVariant
variant_of to_lower text =
    let status = to_lower text in
    if str_eq status "success" || str_eq status "completed"
    then success
    else if str_eq status "pending" || str_eq status "processing"
    then warning
    else if str_eq status "failed"
    then destructive
    else info

module _ {N : Type 0} where
  pub start_orders : Orders N → Orders N
  start_orders s = record s { loading = true; error = none }

  -- `res.data || []`, or the call fails.
  pub fetched_orders :
      (translate : String → String) → Option (Option (List (Order N))) → Orders N → Orders N
  fetched_orders translate none s = record s {
    error = some (translate "common.error");
    loading = false;
  }
  fetched_orders translate (some none) s = record s { orders = []; loading = false }
  fetched_orders translate (some (some orders)) s = record s { orders = orders; loading = false }

pub record User : Type 0 where
  pub id : String
  pub email : String
  pub full_name : String
  pub role : String
  pub is_active : Bool

pub record Users : Type 0 where
  pub users : List User
  pub loading : Bool

abbrev fallback_users : List User
fallback_users =
    record {
      id = "1";
      email = "admin@cloudscale.io";
      full_name = "Super Admin";
      role = "admin";
      is_active = true;
    }
    ∷ record {
      id = "2";
      email = "merchant@cloudscale.io";
      full_name = "Cloud Merchant";
      role = "merchant";
      is_active = true;
    }
    ∷ record {
      id = "3";
      email = "customer@cloudscale.io";
      full_name = "John Doe";
      role = "customer";
      is_active = true;
    }
    ∷ []

pub fetched_users : Option (Option (List User)) → Users → Users
fetched_users none s = record { users = fallback_users; loading = false }
fetched_users (some none) s = record { users = []; loading = false }
fetched_users (some (some users)) s = record { users = users; loading = false }
