-- ===== src/Pages/Tenant/View.antt =====
-- frontend/src/pages/TenantAdmin.tsx: the tabs, the cards of the plans with their buttons, the switcher,
-- the invoices and the log, and what the clicks do. `shown` is the decimal text of a number, and
-- `fixed` the same with two decimals.
use Prim.Native.String
use cloudscale_commerce.Prelude.{
  ℕ, Bool, true, false, not, ◌||◌, if◌then◌else◌, Option, none, some, List, [], ◌∷◌, map, String,
  str_eq, ◌==◌,
}
use cloudscale_commerce.Api.Auth.{User}
use cloudscale_commerce.Stores.Tenant.{PlanTier, switch_tenant}
use cloudscale_commerce.Pages.Tenant.{
  Plan, plans, same_tier, current_plan, TenantAdmin, handle_plan_upgrade, on_delay,
}

pub data Tab : Type 0 where
  overview billing audit : Tab

same_tab : Tab → Tab → Bool
same_tab overview overview = true
same_tab billing billing = true
same_tab audit audit = true
same_tab _ _ = false

abbrev tabs : List (Tab × String)
tabs = (overview, "Overview") ∷ (billing, "Billing & Plans") ∷ (audit, "Audit Log") ∷ []

pub data Severity : Type 0 where
  info success warning : Severity

pub record AuditEvent : Type 0 where
  pub action : String
  pub actor : String
  pub detail : String
  pub ts : String
  pub severity : Severity

audited : (action actor detail ts : String) → Severity → AuditEvent
audited action actor detail ts severity = record {
  action = action;
  actor = actor;
  detail = detail;
  ts = ts;
  severity = severity;
}

pub audit_events : List AuditEvent
unfolding audited
audit_events =
    audited "plan.upgraded" "admin@company.com" "Plan upgraded from Starter to Growth" "2 hours ago"
      info
    ∷ audited "user.invited" "admin@company.com" "Invited dev@company.com as Editor" "5 hours ago"
        info
    ∷ audited "product.bulk_import" "ops@company.com" "Imported 47 products via CSV" "1 day ago"
        info
    ∷ audited "security.mfa_enabled" "admin@company.com" "Enabled MFA for organization" "2 days ago"
        success
    ∷ audited "billing.invoice_paid" "system" "Invoice #INV-2026-0042 paid — $49.00" "3 days ago"
        success
    ∷ audited "quota.warning" "system" "Product catalog at 87% capacity" "4 days ago" warning
    ∷ []

pub record Invoice : Type 0 where
  pub id : String
  pub date : String
  pub plan : String
  pub amount : ℕ
  pub status : String

pub invoices : List Invoice
invoices =
    record {
      id = "INV-2026-0042";
      date = "Jul 1, 2026";
      plan = "Growth";
      amount = 49;
      status = "paid";
    }
    ∷ record {
      id = "INV-2026-0035";
      date = "Jun 1, 2026";
      plan = "Growth";
      amount = 49;
      status = "paid";
    }
    ∷ record {
      id = "INV-2026-0028";
      date = "May 1, 2026";
      plan = "Starter";
      amount = 0;
      status = "free";
    }
    ∷ []

-- The page with its tab.
pub record TenantPage : Type 0 where
  pub admin : TenantAdmin
  pub selected_tab : Tab

pub data Event : Type 0 where
  choose_tab : Tab → Event
  manage_plan : Event
  switch : String → Event
  select_plan : PlanTier → Event
  delay_over : Event

-- `disabled={isActive || isUpgrading}`
unfoldable pub is_disabled : PlanTier → TenantAdmin → Bool
is_disabled tier s = same_tier tier s.store.plan_tier || s.is_upgrading

-- A disabled button takes no click.
unfoldable pub step : TenantPage → Event → TenantPage
step s (choose_tab tab) = record s { selected_tab = tab }
step s manage_plan = record s { selected_tab = billing }
step s (switch tid) = record s {
  admin = record s.admin { store = switch_tenant tid s.admin.store };
}
step s (select_plan tier) =
    if is_disabled tier s.admin then s else record s { admin = handle_plan_upgrade tier s.admin }
step s delay_over = record s { admin = on_delay s.admin }

-- What is drawn.
pub record PlanCard : Type 0 where
  pub is_active : Bool
  pub most_popular : Bool
  pub name : String
  pub price : String
  pub per_month : Bool
  pub features : List String
  pub disabled : Bool
  pub label : String

pub record InvoiceRow : Type 0 where
  pub id : String
  pub date : String
  pub plan : String
  pub amount : String
  pub status : String

pub data Panel : Type 0 where
  overview_panel :
      (administrator tenant_id plan price : String) (tenants : List (String × Bool)) → Panel
  billing_panel : List PlanCard → List InvoiceRow → Panel
  audit_panel : List AuditEvent → Panel

pub record View : Type 0 where
  pub plan_badge : String
  pub tenant_id : String
  pub tab_bar : List (String × Bool)
  pub panel : Panel

name_of : Option User → String
name_of none = "Administrator"
name_of (some user) = user.full_name

module _ (shown fixed : ℕ → String) where
  card_of : TenantAdmin → Plan → PlanCard
  card_of s plan =
      let is_active = same_tier plan.id s.store.plan_tier in
      record {
        is_active = is_active;
        most_popular = plan.popular;
        name = plan.name;
        price = if plan.price == 0 then "Free" else String.◌++◌ "$" (shown plan.price);
        per_month = not (plan.price == 0);
        features = plan.features;
        disabled = is_disabled plan.id s;
        label =
            if is_active
            then "Current Plan"
            else if s.is_upgrading
            then "Upgrading..."
            else "Select Plan";
      }

  row_of : Invoice → InvoiceRow
  row_of inv = record {
    id = inv.id;
    date = inv.date;
    plan = inv.plan;
    amount = if inv.amount == 0 then "—" else String.◌++◌ "$" (fixed inv.amount);
    status = if str_eq inv.status "paid" then "Paid" else "Free Tier";
  }

  price_of : Plan → String
  price_of plan =
      if plan.price == 0
      then "Free forever"
      else String.◌++◌ "$" (String.◌++◌ (shown plan.price) "/mo")

  panel_of : Option User → TenantAdmin → Tab → Panel
  unfolding card_of row_of price_of name_of
  panel_of user s overview =
      let plan = current_plan s.store.plan_tier in
      overview_panel (name_of user) s.store.active_tenant_id plan.name (price_of plan) (
        map (λ tid. (tid, str_eq s.store.active_tenant_id tid))
          ("default-tenant" ∷ "acme-corp" ∷ "demo-sandbox" ∷ []))
  panel_of user s billing = billing_panel (map (card_of s) plans) (map row_of invoices)
  panel_of user s audit = audit_panel audit_events

  pub render : Option User → TenantPage → View
  unfolding panel_of same_tab
  render user s = record {
    plan_badge = String.◌++◌ (current_plan s.admin.store.plan_tier).name " Plan";
    tenant_id = s.admin.store.active_tenant_id;
    tab_bar = map (λ tab. (tab.1, same_tab s.selected_tab tab.0)) tabs;
    panel = panel_of user s.admin s.selected_tab;
  }
