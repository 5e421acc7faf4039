-- ===== src/Pf/Parameters.antt =====
-- `PFLocalizationCore::Parameters` of mrpt_pf_localization_core.h, and `load_from` of
-- mrpt_pf_localization_core.cpp. An exception leaves no result: the node's constructor dies with it.
use mrpt_navigation.Base.{ℕ, Bool, Option, List}
use mrpt_navigation.Pf.Library.{Mrpt}

module _ (mrpt : Mrpt) where
  open mrpt use {
    Real, Pose3, Cov, Layer, Geo, Label, ModelSelection2, ModelSelection3, Algorithm, Resampling,
    PointLikelihood, GridLikelihood, Icp, ObsFilter,
  }

  -- `mrpt::poses::CPose3DPDFGaussian`
  pub record Gaussian : Type 0 where
    pub mean : Pose3
    pub cov : Cov

  -- `CMultiMetricMap`: the layers, with null pointers possible
  pub record MultiMap : Type 0 where
    pub maps : List (Option Layer)

  pub record MotionModel2 : Type 0 where
    pub selection : ModelSelection2
    pub a1 : Real
    pub a2 : Real
    pub a3 : Real
    pub a4 : Real
    pub min_std_xy : Real
    pub min_std_phi : Real
    pub alfa1_rot_rot : Real
    pub alfa2_rot_trans : Real
    pub alfa3_trans_trans : Real
    pub alfa4_trans_rot : Real
    pub additional_std_xy : Real
    pub additional_std_phi : Real

  pub record PfOptions : Type 0 where
    pub beta : Real
    pub algorithm : Algorithm
    pub resampling : Resampling
    pub adaptive_sample_size : Bool
    pub maximum_search_samples : ℕ
    pub pow_factor : Real
    pub max_loglikelihood_dyn_range : Real
    pub first_stage_weights_monte_carlo : Bool
    pub optimal_mle : Bool

  pub record KldOptions : Type 0 where
    pub bin_size_xy : Real
    pub bin_size_phi : Real
    pub delta : Real
    pub epsilon : Real
    pub max_sample_size : ℕ
    pub min_sample_size : ℕ
    pub min_samples_per_bin : Real

  pub record Relocalization : Type 0 where
    pub minimum_icp_quality : Real
    pub icp_sigma : Real
    pub resolution_xy : Real
    pub min_sample_copies_per_candidate : ℕ
    pub resolution_phi : Real
    pub initial_divisions_xy : ℕ
    pub initial_divisions_phi : ℕ

  pub record Parameters : Type 0 where
    pub initial_pose : Option Gaussian
    pub metric_map : Option MultiMap
    pub georeferencing : Option Geo
    pub metric_map_layer_names : List Label
    pub gui_enable : Bool
    pub use_se3_pf : Bool
    pub gui_camera_follow_robot : Bool
    pub motion_model_2d : MotionModel2
    pub motion_model_no_odom_2d : MotionModel2
    pub motion_model_3d : ModelSelection3
    pub motion_model_no_odom_3d : ModelSelection3
    pub pf_options : PfOptions
    pub kld_options : KldOptions
    pub override_likelihood_point_maps : Option PointLikelihood
    pub override_likelihood_gridmaps : Option GridLikelihood
    pub initial_particles_per_m2 : ℕ
    pub initialize_from_gnss : Bool
    pub samples_drawn_from_gnss : ℕ
    pub gnss_samples_num_sigmas : Real
    pub relocalize_num_sigmas : Real
    pub relocalization : Relocalization
    pub relocalization_icp : Option Icp
    pub relocalization_obs_filter : ObsFilter
