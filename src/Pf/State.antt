-- ===== src/Pf/State.antt =====
-- `PFLocalizationCore::InternalState` and the class's own fields, mrpt_pf_localization_core.h.
-- A pointer or `std::optional` is an `Option`. Profiler and mutexes are left out: each function
-- below runs under `stateMtx_`. The window is Pf/Window, since no other state depends on it.
use mrpt_navigation.Base.{ℕ, Option, none, List, [], Result}
use mrpt_navigation.Pf.Library.{Mrpt}
use mrpt_navigation.Pf.Parameters.{
  Parameters, Gaussian, MotionModel2, PfOptions, KldOptions, MultiMap,
}

pub data FsmState : Type 0 where
  uninitialized to_be_initialized running : FsmState

module _ (mrpt : Mrpt) where
  open mrpt use {
    Real, Pose2, Pose3, Geo, Label, Layer, Obs, Stamp, Stats, no_stats, Icp, LocalMap,
    ModelSelection3,
  }

  -- particles with their log weights
  abbrev pub Particles : Type 0 → Type 0
  Particles Pose = List (Pose × Real)

  -- `TMonteCarloLocalizationParams`
  pub record FilterOptions : Type 0 where
    pub kld : KldOptions mrpt
    pub metric_map : Option (MultiMap mrpt)

  -- `CMonteCarloLocalization2D` and `3D`; options that nobody has set yet are `none`
  pub record Pdf (Pose : Type 0) : Type 0 where
    pub particles : Particles Pose
    pub options : Option FilterOptions

  -- `mola::RelocalizationICP_SE2::Input`
  pub record RelocalizationInput : Type 0 where
    pub icp_minimum_quality : Real
    pub icp : Option Icp
    pub corner_min : Pose2
    pub corner_max : Pose2
    pub resolution_xy : Real
    pub resolution_phi : Real
    pub output_resolution_xyz : Real
    pub output_resolution_yaw : Real
    pub reference_layers : List (Label × Option Layer)
    pub local_map : Option LocalMap

  -- The action of one filter step: stamp, increment and motion model.
  pub data Action : Type 0 where
    planar : Option Stamp → Pose2 → MotionModel2 mrpt → Action
    spatial : Option Stamp → Pose3 → ModelSelection3 → Action

  pub record InternalState : Type 0 where
    pub fsm_state : FsmState
    pub metric_map : Option (MultiMap mrpt)
    pub georeferencing : Option Geo
    pub pf_options : Option (PfOptions mrpt)
    pub pf_stats : Stats
    pub pdf2d : Option (Pdf Pose2)
    pub pdf3d : Option (Pdf Pose3)
    pub time_last_update : Option Stamp
    pub last_odom : Option Pose2
    pub pending_obs : List (Option Obs)
    pub last_result : Option (Particles Pose3)
    pub next_fake_odometry_incr_pose : Option Pose3
    pub pending_se2 : Option RelocalizationInput

  pub record Core : Type 0 where
    pub params : Parameters mrpt
    pub state : InternalState
    pub last_gnss : Option Obs

  -- `InternalState()`
  abbrev pub new_state : InternalState
  new_state = record {
    fsm_state = uninitialized;
    metric_map = none;
    georeferencing = none;
    pf_options = none;
    pf_stats = no_stats;
    pdf2d = none;
    pdf3d = none;
    time_last_update = none;
    last_odom = none;
    pending_obs = [];
    last_result = none;
    next_fake_odometry_incr_pose = none;
    pending_se2 = none;
  }

  -- `PFLocalizationCore()`
  abbrev pub new_core : Parameters mrpt → Core
  new_core params = record { params = params; state = new_state; last_gnss = none }

  -- The filter library: initial samples (`none` is an exception), one filter step, and relocalization.
  pub record Engine : Type 0 where
    pub reset_uniform2 : Real → Real → Real → Real → Real → Real → ℕ → Particles Pose2
    pub reset_uniform3 : Pose3 → Pose3 → ℕ → Particles Pose3
    pub reset_uniform_free_space :
        Layer → Real → ℕ → Real → Real → Real → Real → Real → Real → Option (Particles Pose2)
    pub execute2 :
        Option (PfOptions mrpt) → Pdf Pose2 → Action → List Obs → Result (Particles Pose2 × Stats)
    pub execute3 :
        Option (PfOptions mrpt) → Pdf Pose3 → Action → List Obs → Result (Particles Pose3 × Stats)
    pub relocalize_se2 : RelocalizationInput → Result (List Pose2)
    pub draw_sample : Gaussian mrpt → ℕ → Pose3
