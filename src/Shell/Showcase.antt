-- ===== src/Shell/Showcase.antt =====
-- frontend/src/components/ShowcasePanel.tsx: the demonstration's personas and its sample workspace.
use Prim.Native.String
use cloudscale_commerce.Prelude.{Bool, true, false, Option, some, List, [], ◌∷◌, String}
use cloudscale_commerce.Api.Auth.{AuthState, set_user}
use cloudscale_commerce.Stores.Tenant.{PlanTier, TenantState, switch_tenant, upgrade_plan}
use cloudscale_commerce.Stores.Notification.{NotificationState, add_notification}

pub record Persona : Type 0 where
  pub id : String
  pub name : String
  pub email : String
  pub role : String
  pub description : String

abbrev pub demo_personas : List Persona
demo_personas =
    record {
      id = "admin";
      name = "Platform Admin";
      email = "admin@cloudscale.io";
      role = "admin";
      description =
          "Full platform access — workspace management, billing, user administration, and audit logs.";
    }
    ∷ record {
      id = "merchant";
      name = "Merchant Operator";
      email = "merchant@acme-store.com";
      role = "merchant";
      description =
          "Catalog management, order fulfillment, inventory tracking, and analytics dashboards.";
    }
    ∷ record {
      id = "customer";
      name = "End Customer";
      email = "jane@example.com";
      role = "customer";
      description = "Product browsing, cart management, checkout flow, and order history.";
    }
    ∷ []

-- The panel and the stores that it writes.
pub record Showcase : Type 0 where
  pub is_open : Bool
  pub active_persona : Option String
  pub seeding_data : Bool
  pub auth : AuthState
  pub tenant : TenantState
  pub inbox : NotificationState

module _ (inherited : String → Bool) (new_id now : String) where
  notify : (title message : String) → Showcase → Showcase
  notify title message s = record s {
    inbox = (add_notification inherited new_id now title message "system" s.inbox).0;
  }

  pub handle_persona_switch : Persona → Showcase → Showcase
  unfolding notify
  handle_persona_switch persona s =
      notify "Demo Context Switched"
        (String.◌++◌ "Now viewing as "
          (String.◌++◌ persona.name (String.◌++◌ " (" (String.◌++◌ persona.role ")"))))
        (record s {
          active_persona = some persona.id;
          auth =
              set_user
                (record {
                  id = persona.id;
                  email = persona.email;
                  full_name = persona.name;
                  role = persona.role;
                })
                s.auth;
        })

  -- Until the delay, and after it.
  pub handle_seed_data : Showcase → Showcase
  handle_seed_data s = record s {
    seeding_data = true;
    tenant = upgrade_plan PlanTier.growth (switch_tenant "demo-sandbox" s.tenant);
  }

  pub on_seeded : Showcase → Showcase
  unfolding notify
  on_seeded s =
      notify "Demo Data Seeded"
        "Sample products, orders, and inventory populated in demo-sandbox workspace"
        (record s { seeding_data = false })
