-- ===== src/Stores/Tenant.antt =====
-- frontend/src/stores/tenantStore.ts: the active tenant, its plan and the limits of the plan.
use cloudscale_commerce.Prelude.{ℕ, ◌≡◌, refl, List, [], ◌∷◌, foldl, String}

pub data PlanTier : Type 0 where
  free growth enterprise : PlanTier

pub record TenantLimits : Type 0 where
  pub max_products : ℕ
  pub max_orders : ℕ

pub record TenantState : Type 0 where
  pub active_tenant_id : String
  pub plan_tier : PlanTier
  pub limits : TenantLimits

unfoldable pub plan_limits : PlanTier → TenantLimits
plan_limits free = record { max_products = 10; max_orders = 15 }
plan_limits growth = record { max_products = 100; max_orders = 200 }
plan_limits enterprise = record { max_products = 10_000; max_orders = 20_000 }

pub initial : TenantState
initial = record {
  active_tenant_id = "default-tenant";
  plan_tier = free;
  limits = plan_limits free;
}

unfoldable pub switch_tenant : String → TenantState → TenantState
switch_tenant tenant_id s = record s { active_tenant_id = tenant_id }

unfoldable pub upgrade_plan : PlanTier → TenantState → TenantState
upgrade_plan tier s = record s { plan_tier = tier; limits = plan_limits tier }

pub reset_tenant : TenantState → TenantState
unfolding initial
reset_tenant s = initial

pub data Action : Type 0 where
  switch : String → Action
  upgrade : PlanTier → Action
  reset : Action

pub step : TenantState → Action → TenantState
unfolding switch_tenant upgrade_plan reset_tenant
step s (switch tenant_id) = switch_tenant tenant_id s
step s (upgrade tier) = upgrade_plan tier s
step s reset = reset_tenant s

step-limits :
    (s : TenantState) (a : Action)
    → s.limits ≡ plan_limits s.plan_tier
    → (step s a).limits ≡ plan_limits (step s a).plan_tier
unfolding step
step-limits s (switch tenant_id) h = h
step-limits s (upgrade tier) h = refl
step-limits s reset h = refl

foldl-limits :
    (s : TenantState) (calls : List Action)
    → s.limits ≡ plan_limits s.plan_tier
    → (foldl step s calls).limits ≡ plan_limits (foldl step s calls).plan_tier
foldl-limits s [] h = h
foldl-limits s (a ∷ calls) h = foldl-limits (step s a) calls (step-limits s a h)

-- After any calls the limits are those of the plan that is shown.
pub run-limits :
    (calls : List Action)
    → (foldl step initial calls).limits ≡ plan_limits (foldl step initial calls).plan_tier
unfolding initial
run-limits calls = foldl-limits initial calls refl
