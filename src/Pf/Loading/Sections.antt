-- ===== src/Pf/Loading/Sections.antt =====
-- Which section of the parameter file ends up in which parameter.
use Prim.Native.String.{String}
use mrpt_navigation.Base.{has_value, true, Option, false, ok, ◌>>=◌, ◌≡◌, arith, List, [], ◌∷◌, All}
use mrpt_navigation.Pf.Library.{Mrpt}
use mrpt_navigation.Pf.Parameters.{Gaussian, Parameters, MotionModel2}
use mrpt_navigation.Pf.Yaml.{optional, child}
use mrpt_navigation.Pf.Loading.{load_initial_pose, load_from, load_motion_model_2d}

module _ (mrpt : Mrpt) where
  open mrpt use {Node, has}

  -- The keys that the loader looks up in a motion model section, beside `modelSelection`.
  abbrev pub flat_keys : List String
  flat_keys =
      "a1" ∷ "a2" ∷ "a3" ∷ "a4" ∷ "minStdXY" ∷ "minStdPHI" ∷ "alfa1_rot_rot" ∷ "alfa2_rot_trans"
      ∷ "alfa3_trans_trans" ∷ "alfa4_trans_rot" ∷ "additional_std_XY" ∷ "additional_std_phi" ∷ []

  -- A successful load reads both sections of planar motion models, the one without odometry last,
  -- into the model with odometry, and leaves the model without odometry as it was.
  pub load_from-motion_models :
      (params : Node) (old : Parameters mrpt) {new : Parameters mrpt}
      → load_from mrpt params old ≡ ok new
      → (new.motion_model_no_odom_2d ≡ old.motion_model_no_odom_2d)
        × ((do
          with_odom ← child mrpt params "motion_model_2d"
          first ← load_motion_model_2d mrpt with_odom old.motion_model_2d
          no_odom ← child mrpt params "motion_model_no_odom_2d"
          load_motion_model_2d mrpt no_odom first)
            ≡ ok new.motion_model_2d)
  unfolding load_from child
  load_from-motion_models params old h = ground arith

  -- A section that keeps its numbers under `gaussianModel` and `thrunModel`, not in itself, sets the
  -- selection alone: all numbers stay as they were.
  pub load_motion_model_2d-nested :
      (section : Node) (old : MotionModel2 mrpt) {new : MotionModel2 mrpt}
      → All (λ key. has section key ≡ false) flat_keys
      → load_motion_model_2d mrpt section old ≡ ok new
      → new ≡ record old { selection = new.selection }
  unfolding load_motion_model_2d optional
  load_motion_model_2d-nested section old flat h = ground arith

  pub load_from-keeps :
      (params : Node) (old : Parameters mrpt) {new : Parameters mrpt}
      → load_from mrpt params old ≡ ok new
      → (new.metric_map ≡ old.metric_map)
        × (new.georeferencing ≡ old.georeferencing)
        × (new.metric_map_layer_names ≡ old.metric_map_layer_names)
  unfolding load_from
  load_from-keeps params old h = ground arith

  load_initial_pose-posed :
      (params : Node) (old : Option (Gaussian mrpt)) {new : Option (Gaussian mrpt)}
      → load_initial_pose mrpt params old ≡ ok new
      → has_value old ≡ true
      → has_value new ≡ true
  unfolding load_initial_pose
  load_initial_pose-posed params old h k = ground arith

  load_from-pose :
      (params : Node) (old : Parameters mrpt) {new : Parameters mrpt}
      → load_from mrpt params old ≡ ok new
      → load_initial_pose mrpt params old.initial_pose ≡ ok new.initial_pose
  unfolding load_from
  load_from-pose params old h = ground arith

  -- A successful load leaves an initial pose where there was one.
  pub load_from-posed :
      (params : Node) (old : Parameters mrpt) {new : Parameters mrpt}
      → load_from mrpt params old ≡ ok new
      → has_value old.initial_pose ≡ true
      → has_value new.initial_pose ≡ true
  load_from-posed params old h k =
      load_initial_pose-posed params old.initial_pose (load_from-pose params old h) k
