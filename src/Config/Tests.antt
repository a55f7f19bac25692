-- ===== src/Config/Tests.antt =====
-- The theorem about the configuration at a concrete run.
use cloudscale_commerce.Prelude.{true, false, none, some}
use cloudscale_commerce.Config.{FeatureFlag, KillSwitch, Partial, Response}
use cloudscale_commerce.Config.Loads.{Load}

abbrev no_tour : Partial FeatureFlag
no_tour FeatureFlag.enable_onboarding = some false
no_tour _ = none

abbrev down : Partial KillSwitch
down KillSwitch.maintenance_mode = some true
down _ = none

abbrev outage : Load
outage = (Response.unreachable, Response.refused)
