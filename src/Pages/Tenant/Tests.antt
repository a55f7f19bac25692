-- ===== src/Pages/Tenant/Tests.antt =====
-- An upgrade with clicks in between.
use cloudscale_commerce.Prelude.{refl, false, none, List, [], ◌∷◌, foldl}
use cloudscale_commerce.Stores.Tenant.{free, growth, enterprise}
use cloudscale_commerce.Pages.Tenant.{same_tier}
use cloudscale_commerce.Pages.Tenant.View.{
  TenantPage, billing, audit, Event, choose_tab, switch, select_plan, delay_over, is_disabled, step,
}
use cloudscale_commerce.Pages.Tenant.Upgrades.{IsUpgraded, run-IsUpgraded}

abbrev page : TenantPage
page = record {
  admin = record {
    store = record {
      active_tenant_id = "default-tenant";
      plan_tier = free;
      limits = record { max_products = 10; max_orders = 15 };
    };
    is_upgrading = false;
    waiting = none;
  };
  selected_tab = billing;
}

abbrev clicks : List Event
clicks = select_plan enterprise ∷ switch "acme-corp" ∷ choose_tab audit ∷ []

growing_at_last :
    IsUpgraded growth (step (foldl step (step page (select_plan growth)) clicks) delay_over).admin
unfolding is_disabled same_tier
growing_at_last = run-IsUpgraded growth page clicks refl (tt, (tt, (tt, tt)))
