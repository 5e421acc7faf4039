-- ===== src/Pf/Defaults.antt =====
-- `Parameters()` of mrpt_pf_localization_core.cpp, with the initial values of the members.
pub mod Safe
use mrpt_navigation.Base.{ℕ, true, false, none, some, []}
use mrpt_navigation.Pf.Library.{Mrpt}
use mrpt_navigation.Pf.Parameters.{Parameters, Gaussian, MotionModel2, PfOptions, KldOptions}

module _ (mrpt : Mrpt) where
  open mrpt use {ratio, times, pi, pose3, diagonal, ModelSelection2, ModelSelection3, ObsFilter}

  -- What the structs of MRPT start with, and the Gaussian motion models.
  pub record MrptDefaults : Type 0 where
    pub motion_model_2d : MotionModel2 mrpt
    pub motion_model_3d : ModelSelection3
    pub mm_gaussian2 : ModelSelection2
    pub mm_gaussian3 : ModelSelection3
    pub pf_options : PfOptions mrpt
    pub kld_options : KldOptions mrpt
    pub no_filter : ObsFilter

  -- The identity matrix with the variance of the angles.
  default_pose : Gaussian mrpt
  default_pose =
      let angle = times pi pi in
      record {
        mean = pose3 (ratio 0 1) (ratio 0 1) (ratio 0 1) (ratio 0 1) (ratio 0 1) (ratio 0 1);
        cov = diagonal (ratio 1 1) (ratio 1 1) (ratio 1 1) angle angle angle;
      }

  unfoldable pub new_parameters : MrptDefaults → Parameters mrpt
  unfolding default_pose
  new_parameters d = record {
    initial_pose = some default_pose;
    metric_map = none;
    georeferencing = none;
    metric_map_layer_names = [];
    gui_enable = true;
    use_se3_pf = false;
    gui_camera_follow_robot = true;
    motion_model_2d = d.motion_model_2d;
    motion_model_no_odom_2d = record (d.motion_model_2d) {
      selection = d.mm_gaussian2;
      min_std_xy = ratio 10 100;
      min_std_phi = ratio 2 1;
    };
    motion_model_3d = d.motion_model_3d;
    motion_model_no_odom_3d = d.mm_gaussian3;
    pf_options = d.pf_options;
    kld_options = d.kld_options;
    override_likelihood_point_maps = none;
    override_likelihood_gridmaps = none;
    initial_particles_per_m2 = 10;
    initialize_from_gnss = false;
    samples_drawn_from_gnss = 20;
    gnss_samples_num_sigmas = ratio 6 1;
    relocalize_num_sigmas = ratio 3 1;
    relocalization = record {
      minimum_icp_quality = ratio 50 100;
      icp_sigma = ratio 5 1;
      resolution_xy = ratio 50 100;
      min_sample_copies_per_candidate = 4;
      resolution_phi = ratio 20 100;
      initial_divisions_xy = 4;
      initial_divisions_phi = 4;
    };
    relocalization_icp = none;
    relocalization_obs_filter = d.no_filter;
  }
