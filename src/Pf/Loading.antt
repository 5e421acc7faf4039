-- ===== src/Pf/Loading.antt =====
-- `PFLocalizationCore::Parameters::load_from` of mrpt_pf_localization_core.cpp.
-- Its macros are Pf/Yaml.
pub mod Sections
use Prim.Native.String.{String}
use mrpt_navigation.Base.{
  Option, none, some, Result, ok, err, ◌>>=◌, ◌>>◌, assert, or_throw, missing_key, bad_cast,
  if◌then◌else◌,
}
use mrpt_navigation.Pf.Library.{Mrpt}
use mrpt_navigation.Pf.Yaml.{as_enum, required, optional, as_degrees, child}
use mrpt_navigation.Pf.FilterOptions.{load_pf_options, load_kld_options}
use mrpt_navigation.Pf.Parameters.{
  Parameters, Gaussian, MotionModel2, PfOptions, KldOptions, Relocalization,
}

module _ (mrpt : Mrpt) where
  open mrpt use {
    Real, Node, has, at, is_map, is_scalar, as_bool, as_size, as_real, as_text, deg2rad, pose3,
    diagonal, ratio, times, pi, selection2_of, selection3_of, algorithm_of, resampling_of,
    likelihood_points_from, likelihood_grid_from,
  }

  unfoldable pub load_motion_model_2d : Node → MotionModel2 mrpt → Result (MotionModel2 mrpt)
  load_motion_model_2d p mmo = do
    selection ← required mrpt (as_enum as_text selection2_of) p "modelSelection"
    assert (has p "gaussianModel")
    a1 ← optional mrpt as_real p "a1" mmo.a1
    a2 ← optional mrpt as_real p "a2" mmo.a2
    a3 ← optional mrpt (as_degrees mrpt) p "a3" mmo.a3
    a4 ← optional mrpt as_real p "a4" mmo.a4
    min_std_xy ← optional mrpt as_real p "minStdXY" mmo.min_std_xy
    min_std_phi ← optional mrpt (as_degrees mrpt) p "minStdPHI" mmo.min_std_phi
    alfa1 ← optional mrpt as_real p "alfa1_rot_rot" mmo.alfa1_rot_rot
    alfa2 ← optional mrpt as_real p "alfa2_rot_trans" mmo.alfa2_rot_trans
    alfa3 ← optional mrpt as_real p "alfa3_trans_trans" mmo.alfa3_trans_trans
    alfa4 ← optional mrpt as_real p "alfa4_trans_rot" mmo.alfa4_trans_rot
    add_xy ← optional mrpt as_real p "additional_std_XY" mmo.additional_std_xy
    add_phi ← optional mrpt (as_degrees mrpt) p "additional_std_phi" mmo.additional_std_phi
    ok (record {
      selection = selection;
      a1 = a1;
      a2 = a2;
      a3 = a3;
      a4 = a4;
      min_std_xy = min_std_xy;
      min_std_phi = min_std_phi;
      alfa1_rot_rot = alfa1;
      alfa2_rot_trans = alfa2;
      alfa3_trans_trans = alfa3;
      alfa4_trans_rot = alfa4;
      additional_std_xy = add_xy;
      additional_std_phi = add_phi;
    })

  zero_real : Real
  zero_real = ratio 0 1

  square : Real → Real
  square a = times a a

  -- `m["x"].as<double>()`
  real_at : Node → String → Result Real
  real_at p key = child mrpt p key >>= λ n. or_throw (as_real n) bad_cast

  scalar_at : Node → String → Result (Unit {0})
  scalar_at p key = child mrpt p key >>= λ n. assert (is_scalar n)

  -- The block `if (params.has("initial_pose"))`.
  unfoldable pub load_initial_pose : Node → Option (Gaussian mrpt) → Result (Option (Gaussian mrpt))
  unfolding zero_real square real_at scalar_at
  load_initial_pose params old =
      if has params "initial_pose"
      then (do
        pose ← child mrpt params "initial_pose"
        assert (is_map pose)
        assert (has pose "mean")
        mean ← child mrpt pose "mean"
        scalar_at mean "x"
        scalar_at mean "y"
        scalar_at pose "std_x"
        scalar_at pose "std_y"
        x ← real_at mean "x"
        y ← real_at mean "y"
        z ← optional mrpt as_real mean "z" zero_real
        yaw ← optional mrpt as_real mean "yaw" zero_real
        pitch ← optional mrpt as_real mean "pitch" zero_real
        roll ← optional mrpt as_real mean "roll" zero_real
        std_x ← real_at pose "std_x"
        std_y ← real_at pose "std_y"
        std_z ← optional mrpt as_real pose "std_z" zero_real
        std_yaw ← optional mrpt as_real pose "std_yaw" (times (ratio 2 1) pi)
        std_pitch ← optional mrpt as_real pose "std_pitch" zero_real
        std_roll ← optional mrpt as_real pose "std_roll" zero_real
        ok (
            some (record {
              mean = pose3 x y z yaw pitch roll;
              cov =
                  diagonal (square std_x) (square std_y) (square std_z) (square std_yaw)
                    (square std_pitch) (square std_roll);
            })))
      else ok old

  unfoldable pub load_relocalization : Node → Relocalization mrpt → Result (Relocalization mrpt)
  load_relocalization params old = do
    quality ←
        optional mrpt as_real params "relocalization_minimum_icp_quality" old.minimum_icp_quality
    sigma ← optional mrpt as_real params "relocalization_icp_sigma" old.icp_sigma
    xy ← optional mrpt as_real params "relocalization_resolution_xy" old.resolution_xy
    copies ←
        optional mrpt as_size params "relocalization_min_sample_copies_per_candidate"
          old.min_sample_copies_per_candidate
    phi ← optional mrpt (as_degrees mrpt) params "relocalization_resolution_phi" old.resolution_phi
    div_xy ←
        optional mrpt as_size params "relocalization_initial_divisions_xy" old.initial_divisions_xy
    div_phi ←
        optional mrpt as_size params "relocalization_initial_divisions_phi"
          old.initial_divisions_phi
    ok (record {
      minimum_icp_quality = quality;
      icp_sigma = sigma;
      resolution_xy = xy;
      min_sample_copies_per_candidate = copies;
      resolution_phi = phi;
      initial_divisions_xy = div_xy;
      initial_divisions_phi = div_phi;
    })

  -- The blocks `override_likelihood_point_maps` and `override_likelihood_gridmaps`.
  unfoldable pub override : {A : Type 0} → (Node → A) → Node → String → Option A → Result (Option A)
  override of_node params key old =
      if has params key then child mrpt params key >>= (λ n. ok (some (of_node n))) else ok old

  unfoldable pub load_from : Node → Parameters mrpt → Result (Parameters mrpt)
  unfolding override
  load_from params old = do
    gui ← optional mrpt as_bool params "gui_enable" old.gui_enable
    se3 ← required mrpt as_bool params "use_se3_pf"
    follow ← optional mrpt as_bool params "gui_camera_follow_robot" old.gui_camera_follow_robot
    assert (has params "motion_model_2d")
    with_odom ← child mrpt params "motion_model_2d"
    first ← load_motion_model_2d with_odom old.motion_model_2d
    assert (has params "motion_model_no_odom_2d")
    no_odom ← child mrpt params "motion_model_no_odom_2d"
    second ← load_motion_model_2d no_odom first
    model3 ←
        optional mrpt (as_enum as_text selection3_of) params "motion_model_3d.modelSelection"
          old.motion_model_3d
    no_odom3 ←
        optional mrpt (as_enum as_text selection3_of) params
          "motion_model_no_odom_3d.modelSelection" old.motion_model_no_odom_3d
    pose ← load_initial_pose params old.initial_pose
    assert (has params "pf_options")
    pfo ← child mrpt params "pf_options"
    pf ← load_pf_options mrpt pfo old.pf_options
    assert (has params "kld_options")
    kldo ← child mrpt params "kld_options"
    kld ← load_kld_options mrpt kldo old.kld_options
    points ←
        override likelihood_points_from params "override_likelihood_point_maps"
          old.override_likelihood_point_maps
    grids ←
        override likelihood_grid_from params "override_likelihood_gridmaps"
          old.override_likelihood_gridmaps
    per_m2 ← optional mrpt as_size params "initial_particles_per_m2" old.initial_particles_per_m2
    from_gnss ← optional mrpt as_bool params "initialize_from_gnss" old.initialize_from_gnss
    drawn ← optional mrpt as_size params "samples_drawn_from_gnss" old.samples_drawn_from_gnss
    gnss_sigmas ← optional mrpt as_real params "gnss_samples_num_sigmas" old.gnss_samples_num_sigmas
    sigmas ← optional mrpt as_real params "relocalize_num_sigmas" old.relocalize_num_sigmas
    reloc ← load_relocalization params old.relocalization
    ok (record old {
      gui_enable = gui;
      use_se3_pf = se3;
      gui_camera_follow_robot = follow;
      motion_model_2d = second;
      motion_model_3d = model3;
      motion_model_no_odom_3d = no_odom3;
      initial_pose = pose;
      pf_options = pf;
      kld_options = kld;
      override_likelihood_point_maps = points;
      override_likelihood_gridmaps = grids;
      initial_particles_per_m2 = per_m2;
      initialize_from_gnss = from_gnss;
      samples_drawn_from_gnss = drawn;
      gnss_samples_num_sigmas = gnss_sigmas;
      relocalize_num_sigmas = sigmas;
      relocalization = reloc;
    })
