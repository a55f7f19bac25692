-- ===== src/Config.antt =====
-- frontend/src/lib/config.ts: the feature flags and the kill switches, with their defaults and what an
-- endpoint answers.
pub mod Loads
mod Tests
use cloudscale_commerce.Prelude.{Bool, true, false, Option, none, some, String, str_eq}

pub data FeatureFlag : Type 0 where
  enable_web_socket enable_pwa enable_onboarding enable_search_history
        enable_notification_preferences :
      FeatureFlag
  enable_virtualized_tables enable_offline_banner enable_observability enable_csrf_protection :
      FeatureFlag

pub data KillSwitch : Type 0 where
  disable_checkout disable_registration disable_admin_panel maintenance_mode : KillSwitch

-- `Partial<…>`: the keys that an object has, with their values.
abbrev pub Partial : Type 0 → Type 0
Partial K = K → Option Bool

abbrev pub default_flags : FeatureFlag → Bool
default_flags flag = true

abbrev pub default_kill_switches : KillSwitch → Bool
default_kill_switches switch = false

-- The two variables of the module.
pub record Config : Type 0 where
  pub runtime_flags : Partial FeatureFlag
  pub runtime_kill_switches : Partial KillSwitch

pub initial : Config
initial = record { runtime_flags = λ flag. none; runtime_kill_switches = λ switch. none }

-- What comes of a load: no URL is set, the call fails, the status is not a success, or there is a
-- body, which may not be JSON.
pub data Response (K : Type 0) : Type 0 where
  no_url : Response K
  unreachable : Response K
  refused : Response K
  answered : Option (Partial K) → Response K

-- `{ ...defaults, ...runtime }`
merge : {K : Type 0} → (K → Bool) → Partial K → K → Bool
merge defaults runtime key = elim (runtime key) [ none ↦ defaults key | some value ↦ value ]

load : {K : Type 0} → Response K → Partial K → Partial K
load (answered (some values)) runtime = values
load _ runtime = runtime

pub load_feature_flags : Response FeatureFlag → Config → Config
unfolding load
load_feature_flags response c = record c { runtime_flags = load response c.runtime_flags }

pub get_feature_flags : Config → FeatureFlag → Bool
unfolding merge
get_feature_flags c = merge default_flags c.runtime_flags

pub is_feature_enabled : FeatureFlag → Config → Bool
unfolding get_feature_flags
is_feature_enabled flag c = get_feature_flags c flag

pub load_kill_switches : Response KillSwitch → Config → Config
unfolding load
load_kill_switches response c = record c {
  runtime_kill_switches = load response c.runtime_kill_switches;
}

pub get_kill_switches : Config → KillSwitch → Bool
unfolding merge
get_kill_switches c = merge default_kill_switches c.runtime_kill_switches

pub is_maintenance_mode : Config → Bool
unfolding get_kill_switches
is_maintenance_mode c = get_kill_switches c KillSwitch.maintenance_mode

pub initialize_config : Response FeatureFlag → Response KillSwitch → Config → Config
unfolding load_feature_flags load_kill_switches
initialize_config flags switches c = load_kill_switches switches (load_feature_flags flags c)

-- The tests of `buildMeta.environment`.
pub is_development : String → Bool
is_development environment = str_eq environment "development"

pub is_production : String → Bool
is_production environment = str_eq environment "production"

pub is_staging : String → Bool
is_staging environment = str_eq environment "staging"
