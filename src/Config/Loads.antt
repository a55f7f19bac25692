-- ===== src/Config/Loads.antt =====
-- What the flags and the switches are after several loads.
use cloudscale_commerce.Prelude.{
  ◌≡◌, refl, Bool, true, false, Option, none, some, List, [], ◌∷◌, foldl, All,
}
use cloudscale_commerce.Config.{
  FeatureFlag, KillSwitch, Partial, Config, Response, no_url, unreachable, refused, answered, merge,
  load, load_feature_flags, get_feature_flags, is_feature_enabled, load_kill_switches,
  get_kill_switches, is_maintenance_mode, initialize_config,
}

-- A load of the flags and of the switches.
abbrev pub Load : Type 0
Load = Response FeatureFlag × Response KillSwitch

abbrev pub initialize : Config → Load → Config
initialize c (flags, switches) = initialize_config flags switches c

-- Neither of the two brings an object.
abbrev pub IsEmpty : {K : Type 0} → Response K → Type 0
IsEmpty (answered (some values)) = ⊥
IsEmpty _ = Unit

abbrev pub IsFruitless : Load → Type 0
IsFruitless (flags, switches) = IsEmpty flags × IsEmpty switches

load_empty :
    {K : Type 0} (r : Response K) (runtime : Partial K) → IsEmpty r → load r runtime ≡ runtime
unfolding load
load_empty no_url runtime h = refl
load_empty unreachable runtime h = refl
load_empty refused runtime h = refl
load_empty (answered none) runtime h = refl
load_empty (answered (some values)) runtime h = absurd h

foldl_fruitless :
    (loads : List Load) (c : Config) → All IsFruitless loads → foldl initialize c loads ≡ c
unfolding initialize_config load_feature_flags load_kill_switches
foldl_fruitless [] c h = refl
foldl_fruitless ((flags, switches) ∷ loads) c ((f, k), h) =
    rw (load_empty flags c.runtime_flags f)
      (rw (load_empty switches c.runtime_kill_switches k) (foldl_fruitless loads c h))

abbrev pub or_default : Bool → Option Bool → Bool
or_default usual none = usual
or_default usual (some value) = value

-- After a load that brings both objects and any later loads that bring none, a flag is what the first
-- one said of it, or on, and the maintenance mode is what it said, or off: a load that fails keeps
-- the values of the one before.
pub is_feature_enabled-loads :
    (flag : FeatureFlag) (flags : Partial FeatureFlag) (switches : Partial KillSwitch) (c : Config)
    (later : List Load)
    → All IsFruitless later
    → let after = foldl initialize c ((answered (some flags), answered (some switches)) ∷ later) in
      (is_feature_enabled flag after ≡ or_default true (flags flag))
      × (is_maintenance_mode after ≡ or_default false (switches KillSwitch.maintenance_mode))
unfolding is_feature_enabled is_maintenance_mode get_feature_flags get_kill_switches merge
    initialize_config load_feature_flags load_kill_switches load
is_feature_enabled-loads flag flags switches c later h = rw (foldl_fruitless later _ h) (refl, refl)
