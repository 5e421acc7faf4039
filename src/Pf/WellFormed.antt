-- ===== src/Pf/WellFormed.antt =====
-- The invariant of `PFLocalizationCore` that its pointer dereferences rest on.
use mrpt_navigation.Base.{
  Bool, true, false, Option, none, some, ◌≡◌, ◌≢◌, has_value, All, not, Result, err, null_pointer,
}
use mrpt_navigation.Pf.Library.{Mrpt}
use mrpt_navigation.Pf.Parameters.{MultiMap}
use mrpt_navigation.Pf.State.{FsmState, uninitialized, running, Core, RelocalizationInput}

module _ (mrpt : Mrpt) where
  -- No layer is a null pointer.
  abbrev pub HasLayers : Option (MultiMap mrpt) → Type 0
  HasLayers none = Unit
  HasLayers (some mm) = All (λ m. has_value m ≡ true) mm.maps

  abbrev pub is_uninitialized : FsmState → Bool
  is_uninitialized uninitialized = true
  is_uninitialized _ = false

  abbrev pub is_running : FsmState → Bool
  is_running running = true
  is_running _ = false

  abbrev pub request_has_icp : Option (RelocalizationInput mrpt) → Bool
  request_has_icp none = true
  request_has_icp (some request) = has_value request.icp

  pub record IsWellFormed (c : Core mrpt) : Type 0 where
    pub posed : has_value c.params.initial_pose ≡ true
    pub given_layers : HasLayers c.params.metric_map
    pub given_map :
        is_uninitialized c.state.fsm_state ≡ false → has_value c.params.metric_map ≡ true
    pub used_layers : HasLayers c.state.metric_map
    pub used_map : is_running c.state.fsm_state ≡ true → has_value c.state.metric_map ≡ true
    -- one filter, planar or spatial
    pub one_filter :
        is_running c.state.fsm_state ≡ true
        → has_value c.state.pdf2d ≡ not (has_value c.state.pdf3d)
    -- A pending relocalization has the ICP that the parameters have, where it is built in.
    pub given_icp : mrpt.have_mola ≡ true → has_value c.params.relocalization_icp ≡ true
    pub request_icp : request_has_icp c.state.pending_se2 ≡ true
    pub request_planar : has_value c.state.pending_se2 ≡ true → has_value c.state.pdf2d ≡ true

  -- The outcome of a step: the invariant holds, and no null pointer has been dereferenced.
  abbrev pub IsSafe : Core mrpt × Result (Unit {0}) → Type 0
  IsSafe r = IsWellFormed r.0 × (r.1 ≢ err null_pointer)
