-- ===== src/Pages/Tenant/Upgrades.antt =====
-- An upgrade of the plan from the click to the end of its delay.
use cloudscale_commerce.Prelude.{
  ◌≡◌, refl, true, false, ◌||◌, none, some, List, [], ◌∷◌, foldl, All, arith,
}
use cloudscale_commerce.Stores.Tenant.{PlanTier, plan_limits, upgrade_plan}
use cloudscale_commerce.Pages.Tenant.{same_tier, TenantAdmin, handle_plan_upgrade, on_delay}
use cloudscale_commerce.Pages.Tenant.View.{
  TenantPage, Event, choose_tab, manage_plan, switch, select_plan, delay_over, is_disabled, step,
}

-- The page waits for the end of the delay after a click on the plan.
record Awaits (tier : PlanTier) (s : TenantPage) : Type 0 where
  upgrading : s.admin.is_upgrading ≡ true
  waiting : s.admin.waiting ≡ some tier

-- Anything but the end of the delay.
abbrev pub Precedes : Event → Type 0
Precedes delay_over = ⊥
Precedes _ = Unit

step-Awaits :
    (tier : PlanTier) (s : TenantPage) (e : Event)
    → Precedes e
    → Awaits tier s
    → Awaits tier (step s e)
unfolding step is_disabled
step-Awaits tier s (choose_tab tab) p h = record { upgrading = h.upgrading; waiting = h.waiting }
step-Awaits tier s manage_plan p h = record { upgrading = h.upgrading; waiting = h.waiting }
step-Awaits tier s (switch tid) p h = record { upgrading = h.upgrading; waiting = h.waiting }
step-Awaits tier s (select_plan other) p h =
    let off : (same_tier other s.admin.store.plan_tier || s.admin.is_upgrading) ≡ true =
      ground (arith, h.upgrading) in
    rw off (record { upgrading = h.upgrading; waiting = h.waiting })
step-Awaits tier s delay_over p h = absurd p

run-Awaits :
    (tier : PlanTier) (s : TenantPage) (events : List Event)
    → All Precedes events
    → Awaits tier s
    → Awaits tier (foldl step s events)
run-Awaits tier s [] p h = h
run-Awaits tier s (e ∷ events) (this, those) h =
    run-Awaits tier (step s e) events those (step-Awaits tier s e this h)

select_plan-Awaits :
    (tier : PlanTier) (s : TenantPage)
    → is_disabled tier s.admin ≡ false
    → Awaits tier (step s (select_plan tier))
unfolding step is_disabled handle_plan_upgrade
select_plan-Awaits tier s on =
    let other : same_tier tier s.admin.store.plan_tier ≡ false = ground arith in
    rw (on, other) (record { upgrading = refl; waiting = refl })

-- The plan is the tenant's, with its limits, and the page is ready for the next one.
abbrev pub IsUpgraded : PlanTier → TenantAdmin → Type 0
IsUpgraded tier s =
    (s.store.plan_tier ≡ tier)
    × (s.store.limits ≡ plan_limits tier)
    × (s.is_upgrading ≡ false)
    × (s.waiting ≡ none)

delay_over-IsUpgraded :
    (tier : PlanTier) (s : TenantPage) → Awaits tier s → IsUpgraded tier (step s delay_over).admin
unfolding step on_delay upgrade_plan
delay_over-IsUpgraded tier s h = rw (h.waiting) (refl, refl, refl, refl)

-- A click on the enabled button of a plan, and then anything on the page until the delay is over, other
-- buttons among it: the plan is the tenant's, with its limits, and the page is ready for the next one.
pub run-IsUpgraded :
    (tier : PlanTier) (s : TenantPage) (events : List Event)
    → is_disabled tier s.admin ≡ false
    → All Precedes events
    → IsUpgraded tier (step (foldl step (step s (select_plan tier)) events) delay_over).admin
run-IsUpgraded tier s events on precede =
    delay_over-IsUpgraded tier (foldl step (step s (select_plan tier)) events)
      (run-Awaits tier (step s (select_plan tier)) events precede (select_plan-Awaits tier s on))
