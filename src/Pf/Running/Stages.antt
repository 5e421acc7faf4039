-- ===== src/Pf/Running/Stages.antt =====
-- The stages of `onStateRunning` before the filter keep the invariant.
use mrpt_navigation.Base.{
  true, Option, none, some, List, [], ◌∷◌, ok, err, Exception, null_pointer, ◌≡◌, ◌≢◌, arith,
  has_value, All, Option-cases, Result-cases, inl, inr, ap, refl, sym, ◌∙◌,
}
use mrpt_navigation.Pf.Library.{Mrpt}
use mrpt_navigation.Pf.Parameters.{PfOptions}
use mrpt_navigation.Pf.State.{running, Core, Engine, Action, Pdf, RelocalizationInput}
use mrpt_navigation.Pf.WellFormed.{IsWellFormed, HasLayers, request_has_icp}
use mrpt_navigation.Pf.Relocalization.{relocalize, add_gnss_samples}
use mrpt_navigation.Pf.Running.{likelihood_loop, can_use, build_action, refresh_options}

module _ (mrpt : Mrpt) where
  open mrpt use {Pose2, Pose3, Obs, Stamp, Stats, Layer}

  likelihood_loop-no_null :
      (ms : List (Option Layer)) (sf : List Obs)
      → All (λ m. has_value m ≡ true) ms
      → likelihood_loop mrpt ms sf ≢ err null_pointer
  unfolding likelihood_loop
  likelihood_loop-no_null [] sf h = λ e. cc
  likelihood_loop-no_null (none ∷ ms) sf h = λ e. cc
  likelihood_loop-no_null (some m ∷ ms) sf h = ground (arith, likelihood_loop-no_null ms sf h.1)

  pub can_use-no_null :
      (c : Core mrpt) (sf : List Obs)
      → HasLayers mrpt c.state.metric_map
      → has_value c.state.metric_map ≡ true
      → can_use mrpt c sf ≢ err null_pointer
  unfolding can_use
  can_use-no_null c sf h k = elim (Option-cases c.state.metric_map) [
    | inl missing ↦ cc (k, missing)
    | inr (mm, found) ↦ rw (found, can_use) (likelihood_loop-no_null mm.maps sf (rw found at h))
  ]

  pub build_action-IsWellFormed :
      (c : Core mrpt) (sf : List Obs) (stamp : Option Stamp)
      → IsWellFormed mrpt c
      → IsWellFormed mrpt (build_action mrpt c sf stamp).0
  unfolding build_action
  build_action-IsWellFormed c sf stamp v = ground arith

  pub build_action-fsm :
      (c : Core mrpt) (sf : List Obs) (stamp : Option Stamp)
      → (build_action mrpt c sf stamp).0.state.fsm_state ≡ c.state.fsm_state
  unfolding build_action
  build_action-fsm c sf stamp = ground arith

  pub refresh_options-IsWellFormed :
      (c : Core mrpt) {c' : Core mrpt}
      → IsWellFormed mrpt c
      → refresh_options mrpt c ≡ ok c'
      → IsWellFormed mrpt c' × (c'.state.fsm_state ≡ c.state.fsm_state)
  unfolding refresh_options
  refresh_options-IsWellFormed c v h = ground arith

  pub refresh_options-ok :
      (c : Core mrpt) {e : Exception}
      → c.state.fsm_state ≡ running
      → IsWellFormed mrpt c
      → refresh_options mrpt c ≢ err e
  unfolding refresh_options
  refresh_options-ok c f v = ground arith

  module _ (engine : Engine mrpt) where
    -- The filter step of MRPT may throw, but not for a null pointer of this program; nor does
    -- relocalization, if it is given an ICP.
    pub record NeverNull : Type 0 where
      pub planar_step :
          (o : Option (PfOptions mrpt)) (p : Pdf mrpt Pose2) (a : Action mrpt) (sf : List Obs)
          → engine.execute2 o p a sf ≢ err null_pointer
      pub spatial_step :
          (o : Option (PfOptions mrpt)) (p : Pdf mrpt Pose3) (a : Action mrpt) (sf : List Obs)
          → engine.execute3 o p a sf ≢ err null_pointer
      pub relocalization :
          (input : RelocalizationInput mrpt)
          → has_value input.icp ≡ true
          → engine.relocalize_se2 input ≢ err null_pointer

    pub relocalize-IsWellFormed :
        (laws : NeverNull) (c : Core mrpt) (sf : List Obs)
        → IsWellFormed mrpt c
        → let r = relocalize mrpt engine c sf in
          IsWellFormed mrpt r.0
          × (r.1 ≢ err null_pointer)
          × (r.0.state.fsm_state ≡ c.state.fsm_state)
    unfolding relocalize
    relocalize-IsWellFormed laws c sf v = elim (Option-cases c.state.pending_se2) [
      | inl absent ↦ rw (absent, relocalize) (v, λ e. cc, refl)
      | inr (request, pending) ↦
          let input = record request {
            local_map = some (mrpt.local_map_of c.params.relocalization_obs_filter sf);
          } in
          let given : has_value request.icp ≡ true =
            ap (request_has_icp mrpt) (sym pending) ∙ v.request_icp in
          let safe = laws.relocalization input given in
          elim (Result-cases (engine.relocalize_se2 input)) [
            | inl (poses, done) ↦ ground (arith, pending, done)
            | inr (e, thrown) ↦ ground (arith, pending, thrown, safe)
          ]
    ]

    pub add_gnss_samples-IsWellFormed :
        (c : Core mrpt)
        → IsWellFormed mrpt c
        → IsWellFormed mrpt (add_gnss_samples mrpt engine c)
          × ((add_gnss_samples mrpt engine c).state.fsm_state ≡ c.state.fsm_state)
    unfolding add_gnss_samples
    add_gnss_samples-IsWellFormed c v = ground arith
