-- ===== src/PfNode/Node.antt =====
-- The state of `PFLocalizationNode` and the callbacks of its subscriptions. An exception that
-- leaves one of them is an error; what was changed before it stays changed. tf answers with a pose,
-- or `none`.
use mrpt_navigation.Base.{
  ℕ, Option, none, some, List, [], Result, ok, err, assertion_failed, if◌then◌else◌, has_value,
}
use mrpt_navigation.Pf.Library.{Mrpt}
use mrpt_navigation.Pf.Parameters.{Gaussian}
use mrpt_navigation.Pf.State.{Core, Particles}
use mrpt_navigation.Pf.Queue.{on_observation}
use mrpt_navigation.Pf.Api.{relocalize_here, set_map_from_layers}
use mrpt_navigation.PfNode.Library.{Ros}

module _ (mrpt : Mrpt) (ros : Ros mrpt) where
  open mrpt use {Real, Pose3, Stamp, timestamp, Obs, Label, Layer, Geo}
  open ros use {
    LaserScan, obs_of_scan, PointCloud, obs_of_cloud, OdometryMsg, obs_of_odometry, NavSatFix,
    obs_of_fix, PoseMsg, gaussian_of, GenericObject, map_of,
  }

  -- `mrpt::math::TTwist3D`
  pub record Twist : Type 0 where
    pub v : Real × Real × Real
    pub w : Real × Real × Real

  -- The transform from map to odom, with its stamp.
  pub record MapOdom : Type 0 where
    pub pose : Pose3
    pub stamp : Stamp

  pub record Node : Type 0 where
    pub core : Core mrpt
    pub loop_count : ℕ
    pub transform_tolerance : Real
    pub last_sensor_stamp : Option Stamp
    pub prev_parts : Option (Particles mrpt Pose3)
    pub prev_stamp : Option Stamp
    pub estimated_twist : Option Twist
    pub tf_map_odom_to_publish : Option MapOdom
    -- what has been published: particles and poses with their stamps, and transforms
    pub particles : List (Stamp × Particles mrpt Pose3)
    pub poses : List (Stamp × Gaussian mrpt)
    pub transforms : List MapOdom

  abbrev pub Outcome : Type 0
  Outcome = Node × Result (Unit {0})

  -- `core_.on_observation(obs)` after the stamp has been kept.
  unfoldable pub observe : Obs → Node → Node
  observe o n = record n {
    last_sensor_stamp = some (timestamp o);
    core = on_observation mrpt n.core (some o);
  }

  unfoldable pub callback_laser : LaserScan → Label → Option Pose3 → Node → Outcome
  unfolding observe
  callback_laser msg topic none n = (n, err assertion_failed)
  callback_laser msg topic (some sensor) n = (observe (obs_of_scan msg sensor topic) n, ok tt)

  -- The sensor pose is looked up, and not used; the observation has the stamp of its creation.
  unfoldable pub callback_point_cloud : PointCloud → Label → Stamp → Option Pose3 → Node → Outcome
  unfolding observe
  callback_point_cloud msg topic now none n = (n, err assertion_failed)
  callback_point_cloud msg topic now (some sensor) n =
      (observe (obs_of_cloud msg topic now) n, ok tt)

  unfoldable pub callback_odometry : OdometryMsg → Node → Outcome
  unfolding observe
  callback_odometry msg n = (observe (obs_of_odometry msg) n, ok tt)

  -- A fix counts as a sensor stamp only if it is the first one.
  unfoldable pub observe_fix : Option Obs → Node → Node
  observe_fix none n = n
  observe_fix (some o) n = record n {
    last_sensor_stamp =
        if has_value n.last_sensor_stamp then n.last_sensor_stamp else some (timestamp o);
    core = on_observation mrpt n.core (some o);
  }

  unfoldable pub callback_gnss : NavSatFix → Option Pose3 → Node → Outcome
  unfolding observe_fix
  callback_gnss msg none n = (n, err assertion_failed)
  callback_gnss msg (some sensor) n = (observe_fix (obs_of_fix msg) n, ok tt)

  unfoldable pub callback_initialpose : PoseMsg → Node → Outcome
  callback_initialpose msg n =
      (record n { core = relocalize_here mrpt (gaussian_of msg) n.core }, ok tt)

  -- `none` is an object of another class.
  unfoldable pub receive_map : Option (List (Label × Option Layer) × Option Geo) → Node → Outcome
  receive_map none n = (n, err assertion_failed)
  receive_map (some (layers, geo)) n =
      let (core, r) = set_map_from_layers mrpt layers geo n.core in (record n { core = core }, r)

  unfoldable pub callback_map : GenericObject → Node → Outcome
  unfolding receive_map
  callback_map obj n = receive_map (map_of obj) n

  -- `PFLocalizationNode()`, around a core that has loaded its parameters
  abbrev pub new_node : Core mrpt → Real → Node
  new_node core tolerance = record {
    core = core;
    loop_count = 0;
    transform_tolerance = tolerance;
    last_sensor_stamp = none;
    prev_parts = none;
    prev_stamp = none;
    estimated_twist = none;
    tf_map_odom_to_publish = none;
    particles = [];
    poses = [];
    transforms = [];
  }
