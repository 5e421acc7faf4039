-- ===== src/PfNode/Library.antt =====
-- What mrpt_pf_localization_node.cpp takes from ROS, mrpt::ros2bridge and mrpt::poses, beyond what
-- the core takes: a parameter.
use mrpt_navigation.Base.{Bool, Option, List}
use mrpt_navigation.Pf.Library.{Mrpt}
use mrpt_navigation.Pf.Parameters.{Gaussian}
use mrpt_navigation.Pf.State.{Particles}

pub record Ros (mrpt : Mrpt) : Type 1 where
  -- times
  pub same_stamp : mrpt.Stamp → mrpt.Stamp → Bool
  pub time_difference : mrpt.Stamp → mrpt.Stamp → mrpt.Real
  pub after_seconds : mrpt.Stamp → mrpt.Real → mrpt.Stamp
  pub less : mrpt.Real → mrpt.Real → Bool
  -- poses
  pub mean_of : Particles mrpt mrpt.Pose3 → mrpt.Pose3
  pub relative3 : mrpt.Pose3 → mrpt.Pose3 → mrpt.Pose3
  pub compose3 : mrpt.Pose3 → mrpt.Pose3 → mrpt.Pose3
  -- `SO<3>::log` of the rotation of a pose, and the pose of `SO<3>::exp` and a translation
  pub log_rotation : mrpt.Pose3 → mrpt.Real × mrpt.Real × mrpt.Real
  pub from_exp_and_translation :
      mrpt.Real × mrpt.Real × mrpt.Real → mrpt.Real × mrpt.Real × mrpt.Real → mrpt.Pose3
  -- messages
  pub LaserScan : Type 0
  pub obs_of_scan : LaserScan → mrpt.Pose3 → mrpt.Label → mrpt.Obs
  pub PointCloud : Type 0
  pub obs_of_cloud : PointCloud → mrpt.Label → mrpt.Stamp → mrpt.Obs
  pub OdometryMsg : Type 0
  pub obs_of_odometry : OdometryMsg → mrpt.Obs
  pub NavSatFix : Type 0
  -- `none` where the conversion fails
  pub obs_of_fix : NavSatFix → Option mrpt.Obs
  pub PoseMsg : Type 0
  pub gaussian_of : PoseMsg → Gaussian mrpt
  -- the Gaussian that `CPose3DPDFGaussian::copyFrom` fits to particles
  pub gaussian_fit : Particles mrpt mrpt.Pose3 → Gaussian mrpt
  pub GenericObject : Type 0
  -- the layers and georeferencing of a `metric_map_t`, `none` for an object of another class
  pub map_of : GenericObject → Option (List (mrpt.Label × Option mrpt.Layer) × Option mrpt.Geo)
