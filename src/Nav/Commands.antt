-- ===== src/Nav/Commands.antt =====
-- The handlers of `ReactiveNav2DNode`: navigation commands, sensors, and the timer.
pub mod Ended
pub mod Waypoints
use Prim.Native.String.{String}
use mrpt_navigation.Base.{
  ℕ, Bool, true, false, not, ◌&&◌, Option, none, some, List, [], ◌∷◌, ◌++◌, map, Result, ok, err,
  ◌>>=◌, if◌then◌else◌, same_text, value_or,
}
use mrpt_navigation.Nav.Library.{Mrpt, Waypoint, LogRecord}
use mrpt_navigation.Nav.Node.{Node, Odometry, engine_call, sense_obstacles}
use mrpt_navigation.Nav.Markers.{Marker, log_to_margers}

module _ (mrpt : Mrpt) where
  open mrpt use {
    Real, is_nan, Pose2, x2, y2, Pose3, x, y, yaw, flatten, identity3, compose, Cloud, points_of,
    initialize, navigate, navigate_waypoints, cancel, change_shape, navigation_step, last_log,
  }

  -- `mrpt_msgs::msg::Waypoint`, and the sequence with its frame
  pub record WaypointMsg : Type 0 where
    pub target : Pose3
    pub allowed_distance : Real
    pub allow_skip : Bool
    pub ignore_heading : Bool

  pub record WaypointSequence : Type 0 where
    pub frame_id : String
    pub waypoints : List WaypointMsg

  -- `currentNavEndedSuccessfully_.reset()`
  pub new_command : Node mrpt → Node mrpt
  new_command n = record n { current_nav_ended_successfully = none }

  -- `rnavEngine_.navigate(...)` and `rnavEngine_.navigateWaypoints(...)`, each in a section of its
  -- own after the flag's: other threads may run in between.
  tell_target : Pose2 → Node mrpt → Node mrpt
  tell_target target n =
      engine_call mrpt (navigate n.rnav_engine (x2 target) (y2 target) n.target_allowed_distance) n

  tell_waypoints : List (Waypoint Real) → Node mrpt → Node mrpt
  tell_waypoints wps n = engine_call mrpt (navigate_waypoints n.rnav_engine wps) n

  -- Both sections, with no other thread in between.
  pub navigate_to : Pose2 → Node mrpt → Node mrpt
  unfolding new_command tell_target
  navigate_to target n = tell_target target (new_command n)

  -- `waitForTransform(relPose, ...)` from another frame, its result ignored: `tf` is what the
  -- buffer answers, `none` for its exception.
  unfoldable pub relative_pose : String → Option Pose3 → Node mrpt → Pose3
  relative_pose frame tf n =
      if same_text frame n.frame_reference then identity3 else value_or tf identity3

  unfoldable pub waypoint_of : Pose3 → WaypointMsg → Waypoint Real
  waypoint_of rel wp =
      let trg = compose rel wp.target in
      record {
        x = x trg;
        y = y trg;
        allowed_distance = wp.allowed_distance;
        allow_skip = wp.allow_skip;
        target_heading =
            if not (is_nan (yaw trg)) && not wp.ignore_heading then some (yaw trg) else none;
      }

  pub update_waypoint_sequence : WaypointSequence → Option Pose3 → Node mrpt → Node mrpt
  unfolding relative_pose waypoint_of new_command tell_waypoints
  update_waypoint_sequence msg tf n =
      tell_waypoints (map (waypoint_of (relative_pose msg.frame_id tf n)) msg.waypoints)
        (new_command n)

  pub on_waypoint_seq_received : WaypointSequence → Option Pose3 → Node mrpt → Node mrpt
  on_waypoint_seq_received msg tf n = update_waypoint_sequence msg tf n

  -- The target in its frame, moved to the frame of reference if that is another one.
  pub goal_pose : String → Pose3 → Option Pose3 → Node mrpt → Pose3
  goal_pose frame target tf n =
      if same_text frame n.frame_reference then target else compose (value_or tf identity3) target

  pub on_goal_received : String → Pose3 → Option Pose3 → Node mrpt → Node mrpt
  unfolding goal_pose
  on_goal_received frame target tf n = navigate_to (flatten (goal_pose frame target tf n)) n

  pub on_odometry_received : Odometry mrpt → Node mrpt → Node mrpt
  on_odometry_received odom n = record n { odometry = record odom { has_velocities = true } }

  unfoldable pub on_local_obstacles : Cloud → Node mrpt → Node mrpt
  on_local_obstacles cloud n = record n { last_obstacles = points_of cloud }

  unfoldable pub on_set_robot_shape : List (Real × Real × Real) → Node mrpt → Node mrpt
  on_set_robot_shape points n = record n {
    rnav_engine = change_shape n.rnav_engine (map (λ p. (p.0, p.1)) points);
  }

  pub set_pure_pursuit_mode : Bool → Node mrpt → Node mrpt
  set_pure_pursuit_mode b n = record n { pure_pursuit_mode = b }

  initialized_once : Node mrpt → Node mrpt
  initialized_once n =
      if n.initialized
      then n
      else record n { initialized = true; rnav_engine = initialize n.rnav_engine }

  -- `pose` is what `getCurrentPoseAndSpeeds` tells the engine. The marker of the last decision is
  -- published after the step.
  pub on_do_navigation : Option Pose2 → Node mrpt → Node mrpt × Result (Option (Marker mrpt))
  unfolding initialized_once
  on_do_navigation pose n =
      let m = initialized_once n in
      let moved =
        engine_call mrpt (navigation_step m.rnav_engine pose (sense_obstacles mrpt m)) m in
      (moved, log_to_margers mrpt moved.frame_robot moved.rnav_engine (last_log moved.rnav_engine))

  -- `handle_cancel` and `handle_cancel_wp`
  pub handle_cancel : Node mrpt → Node mrpt
  handle_cancel n = engine_call mrpt (cancel n.rnav_engine) n
