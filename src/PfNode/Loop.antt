-- ===== src/PfNode/Loop.antt =====
-- The loop of `PFLocalizationNode`, and the events that it handles.
pub mod Calls
pub mod Safety
use mrpt_navigation.Base.{
  ℕ, suc, Bool, true, false, not, Option, none, some, List, [], ◌∷◌, ◌++◌, Result, ok, err,
  assertion_failed, null_pointer, if◌then◌else◌, value_or, has_value,
}
use mrpt_navigation.Pf.Library.{Mrpt}
use mrpt_navigation.Pf.Parameters.{Gaussian}
use mrpt_navigation.Pf.State.{Core, Engine, Particles}
use mrpt_navigation.Pf.Queue.{on_observation, input_queue_has_odometry, input_queue_last_stamp}
use mrpt_navigation.Pf.Api.{relocalize_here, set_fake_odometry_increment, set_map_from_layers, step}
use mrpt_navigation.PfNode.Library.{Ros}
use mrpt_navigation.PfNode.Node.{
  Node, Outcome, callback_laser, callback_point_cloud, callback_odometry, callback_gnss,
  callback_initialpose, callback_map,
}
use mrpt_navigation.PfNode.Twist.{create_odometry_from_twist, update_estimated_twist}
use mrpt_navigation.PfNode.Publish.{publish_particles, update_tf_pub_data, publish_tf}

module _ (mrpt : Mrpt) (engine : Engine mrpt) (ros : Ros mrpt) where
  open mrpt use {Pose3, Stamp, Label}
  open ros use {LaserScan, PointCloud, OdometryMsg, NavSatFix, PoseMsg, GenericObject}

  and_then : Outcome mrpt ros → (Node mrpt ros → Outcome mrpt ros) → Outcome mrpt ros
  and_then (n, err e) f = (n, err e)
  and_then (n, ok _) f = f n

  core_step : Node mrpt ros → Outcome mrpt ros
  core_step n = let (core, r) = step mrpt engine n.core in (record n { core = core }, r)

  finish : Bool → Bool → Option Pose3 → Node mrpt ros → Outcome mrpt ros
  unfolding publish_particles update_tf_pub_data
  finish particles_heard pose_heard base_to_odom n =
      let m =
        update_tf_pub_data mrpt ros base_to_odom
          (publish_particles mrpt ros particles_heard pose_heard n) in
      (record m { loop_count = suc m.loop_count }, ok tt)

  pub loop : Bool → Bool → Option Pose3 → Node mrpt ros → Outcome mrpt ros
  unfolding and_then core_step finish
  loop particles_heard pose_heard base_to_odom n =
      and_then
        (and_then (and_then (create_odometry_from_twist mrpt ros n) core_step)
          (update_estimated_twist mrpt ros))
        (finish particles_heard pose_heard base_to_odom)

  -- A message or a timer, with what tf answers and which topics have subscribers.
  pub data Event : Type 0 where
    laser : LaserScan → Label → Option Pose3 → Event
    point_cloud : PointCloud → Label → Stamp → Option Pose3 → Event
    odometry : OdometryMsg → Event
    gnss : NavSatFix → Option Pose3 → Event
    initialpose : PoseMsg → Event
    map_received : GenericObject → Event
    loop_timer : Bool → Bool → Option Pose3 → Event
    tf_timer : Event

  pub on_event : Event → Node mrpt ros → Outcome mrpt ros
  on_event (laser msg topic sensor) n = callback_laser mrpt ros msg topic sensor n
  on_event (point_cloud msg topic now sensor) n =
      callback_point_cloud mrpt ros msg topic now sensor n
  on_event (odometry msg) n = callback_odometry mrpt ros msg n
  on_event (gnss msg sensor) n = callback_gnss mrpt ros msg sensor n
  on_event (initialpose msg) n = callback_initialpose mrpt ros msg n
  on_event (map_received obj) n = callback_map mrpt ros obj n
  on_event (loop_timer particles_heard pose_heard base_to_odom) n =
      loop particles_heard pose_heard base_to_odom n
  on_event tf_timer n = publish_tf mrpt ros n

  pub on_events : List Event → Node mrpt ros → Node mrpt ros
  on_events [] n = n
  on_events (e ∷ es) n = on_events es (on_event e n).0
