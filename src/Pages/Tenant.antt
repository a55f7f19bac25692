-- ===== src/Pages/Tenant.antt =====
-- frontend/src/pages/TenantAdmin.tsx: the table of the plans, the meters, and the upgrade.
pub mod View
pub mod Upgrades
mod Tests
use cloudscale_commerce.Prelude.{
  ℕ, ◌≡◌, refl, sym, ◌∙◌, Bool, true, false, if◌then◌else◌, Option, none, some, List, [], ◌∷◌, find,
  foldl, String,
}
use cloudscale_commerce.Number.{Number}
use cloudscale_commerce.Stores.Tenant.{
  PlanTier, free, growth, enterprise, TenantLimits, TenantState, plan_limits, initial, upgrade_plan,
  Action, step, run-limits,
}

pub record Plan : Type 0 where
  pub id : PlanTier
  pub name : String
  pub price : ℕ
  pub popular : Bool
  pub features : List String
  pub limits : TenantLimits

abbrev starter : Plan
starter = record {
  id = free;
  name = "Starter";
  price = 0;
  popular = false;
  features =
      "Up to 10 products" ∷ "Up to 15 orders/month" ∷ "Basic analytics" ∷ "Email support"
      ∷ "Single workspace" ∷ [];
  limits = record { max_products = 10; max_orders = 15 };
}

abbrev growing : Plan
growing = record {
  id = growth;
  name = "Growth";
  price = 49;
  popular = true;
  features =
      "Up to 100 products" ∷ "Up to 200 orders/month" ∷ "Advanced analytics & AI"
      ∷ "Priority support" ∷ "3 workspaces" ∷ "Custom domain" ∷ [];
  limits = record { max_products = 100; max_orders = 200 };
}

abbrev large : Plan
large = record {
  id = enterprise;
  name = "Enterprise";
  price = 199;
  popular = false;
  features =
      "Up to 10,000 products" ∷ "Up to 20,000 orders/month" ∷ "Full AI & recommendation engine"
      ∷ "Dedicated account manager" ∷ "Unlimited workspaces" ∷ "SSO & SAML" ∷ "SLA guarantee"
      ∷ "Audit logs" ∷ [];
  limits = record { max_products = 10_000; max_orders = 20_000 };
}

abbrev pub plans : List Plan
plans = starter ∷ growing ∷ large ∷ []

unfoldable pub same_tier : PlanTier → PlanTier → Bool
same_tier free free = true
same_tier growth growth = true
same_tier enterprise enterprise = true
same_tier _ _ = false

-- `PLANS.find((p) => p.id === planTier) ?? PLANS[0]`
unfoldable pub current_plan : PlanTier → Plan
unfolding same_tier
current_plan tier = elim (find (λ p. same_tier p.id tier) plans) [ none ↦ starter | some p ↦ p ]

-- The page's own state: whether an upgrade waits for its delay.
pub record TenantAdmin : Type 0 where
  pub store : TenantState
  pub is_upgrading : Bool
  pub waiting : Option PlanTier

-- `handlePlanUpgrade` until its delay, and after it.
unfoldable pub handle_plan_upgrade : PlanTier → TenantAdmin → TenantAdmin
unfolding same_tier
handle_plan_upgrade tier s =
    if same_tier tier s.store.plan_tier
    then s
    else record s { is_upgrading = true; waiting = some tier }

unfoldable pub on_delay : TenantAdmin → TenantAdmin
on_delay s = elim s.waiting [
  | none ↦ s
  | some tier ↦ record s { store = upgrade_plan tier s.store; is_upgrading = false; waiting = none }
]

module _ {N : Type 0} ⦃num : Number N⦄ where
  -- The width of a meter, and whether it warns.
  pub percentage : (current max : N) → N
  percentage current max =
      let share = num.mul (num.div current max) (num.decimal 100 0) in
      if num.lt (num.decimal 100 0) share then num.decimal 100 0 else share

  pub is_critical : (current max : N) → Bool
  unfolding percentage
  is_critical current max = num.le (num.decimal 90 0) (percentage current max)

plan_limits-current_plan : (tier : PlanTier) → (current_plan tier).limits ≡ plan_limits tier
unfolding current_plan same_tier plan_limits
plan_limits-current_plan free = refl
plan_limits-current_plan growth = refl
plan_limits-current_plan enterprise = refl

-- After any calls of the tenant store, the plan that the page shows as the current one promises the
-- limits that the store enforces.
pub current_plan-limits :
    (calls : List Action)
    → let s = foldl step initial calls in (current_plan s.plan_tier).limits ≡ s.limits
current_plan-limits calls =
    plan_limits-current_plan (foldl step initial calls).plan_tier ∙ sym (run-limits calls)
