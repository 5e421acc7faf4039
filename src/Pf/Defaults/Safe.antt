-- ===== src/Pf/Defaults/Safe.antt =====
-- A core as `PFLocalizationCore()` makes it.
use mrpt_navigation.Base.{true, false, List, ok, err, null_pointer, ◌≡◌, ◌≢◌, refl}
use mrpt_navigation.Pf.Library.{Mrpt}
use mrpt_navigation.Pf.State.{Core, Engine, new_core}
use mrpt_navigation.Pf.WellFormed.{IsWellFormed}
use mrpt_navigation.Pf.Running.Stages.{NeverNull}
use mrpt_navigation.Pf.Api.{Call, step, after_all, init_from_yaml}
use mrpt_navigation.Pf.Api.Histories.{after_all-IsSafe}
use mrpt_navigation.Pf.Defaults.{MrptDefaults, new_parameters}

module _ (mrpt : Mrpt) (engine : Engine mrpt) where
  open mrpt use {Node, have_mola, is_empty_node}

  -- The default parameters have the initial pose that the invariant asks for: whatever file is loaded
  -- over them, with a relocalization pipeline where relocalization is built in, no call dereferences
  -- a null pointer, if the filter library does not.
  pub new_parameters-IsSafe :
      (laws : NeverNull mrpt engine) (d : MrptDefaults mrpt) (n pipeline : Node)
      (calls : List (Call mrpt)) {c : Core mrpt}
      → (have_mola ≡ true → is_empty_node pipeline ≡ false)
      → init_from_yaml mrpt n pipeline (new_core mrpt (new_parameters mrpt d)) ≡ ok c
      → IsWellFormed mrpt (after_all mrpt engine calls c)
        × ((step mrpt engine (after_all mrpt engine calls c)).1 ≢ err null_pointer)
  unfolding new_parameters
  new_parameters-IsSafe laws d n pipeline calls given loaded =
      after_all-IsSafe mrpt engine laws (new_parameters mrpt d) n pipeline calls refl refl given
        loaded
