-- ===== src/Nav/Commands/Waypoints.antt =====
-- What the engine is told to do, and the frames of targets.
use Prim.Native.String.{String}
use mrpt_navigation.Base.{true, Option, none, ◌≡◌, refl, ap, map, arith, same_text}
use mrpt_navigation.Nav.Library.{Mrpt}
use mrpt_navigation.Nav.Node.{Node, engine_call}
use mrpt_navigation.Nav.Commands.{
  WaypointSequence, new_command, relative_pose, waypoint_of, update_waypoint_sequence,
  on_waypoint_seq_received, goal_pose, on_goal_received,
}

module _ (mrpt : Mrpt) where
  open mrpt use {Pose3, identity3, compose, navigate_waypoints}

  relative_pose-lost :
      (frame : String) (n : Node mrpt) → relative_pose mrpt frame none n ≡ identity3
  unfolding relative_pose
  relative_pose-lost frame n = ground arith

  relative_pose-home :
      (frame : String) (tf : Option Pose3) (n : Node mrpt)
      → same_text frame n.frame_reference ≡ true
      → relative_pose mrpt frame tf n ≡ identity3
  unfolding relative_pose
  relative_pose-home frame tf n h = ground arith

  goal_pose-lost :
      (frame : String) (target : Pose3) (n : Node mrpt)
      → compose identity3 target ≡ target
      → goal_pose mrpt frame target none n ≡ target
  unfolding goal_pose
  goal_pose-lost frame target n e = ground arith

  goal_pose-home :
      (frame : String) (target : Pose3) (tf : Option Pose3) (n : Node mrpt)
      → same_text frame n.frame_reference ≡ true
      → goal_pose mrpt frame target tf n ≡ target
  unfolding goal_pose
  goal_pose-home frame target tf n h = ground arith

  -- Waypoints in the frame of reference are not moved.
  pub on_waypoint_seq_received-home :
      (msg : WaypointSequence mrpt) (tf : Option Pose3) (n : Node mrpt)
      → same_text msg.frame_id n.frame_reference ≡ true
      → on_waypoint_seq_received mrpt msg tf n
        ≡ engine_call mrpt
            (navigate_waypoints n.rnav_engine (map (waypoint_of mrpt identity3) msg.waypoints))
            (record n { current_nav_ended_successfully = none })
  unfolding on_waypoint_seq_received update_waypoint_sequence new_command
  on_waypoint_seq_received-home msg tf n h =
      ap
        (λ (rel : Pose3).
          engine_call mrpt
            (navigate_waypoints n.rnav_engine (map (waypoint_of mrpt rel) msg.waypoints))
            (record n { current_nav_ended_successfully = none }))
        (relative_pose-home msg.frame_id tf n h)

  -- Where tf cannot relate the frame of a command to the frame of reference, the command is not
  -- refused: waypoints and goal are taken as if their coordinates were in the frame of reference.
  pub lost_frame-ignored :
      (identity_left : (p : Pose3) → compose identity3 p ≡ p) (msg : WaypointSequence mrpt)
      (frame home : String) (target : Pose3) (n : Node mrpt)
      → same_text home n.frame_reference ≡ true
      → ((tf : Option Pose3)
          → update_waypoint_sequence mrpt msg none n
            ≡ update_waypoint_sequence mrpt (record msg { frame_id = home }) tf n)
        × ((tf : Option Pose3)
            → on_goal_received mrpt frame target none n ≡ on_goal_received mrpt home target tf n)
  unfolding update_waypoint_sequence on_goal_received
  lost_frame-ignored identity_left msg frame home target n h = (
    λ tf.
        rw
          (
            relative_pose-lost msg.frame_id n,
            relative_pose-home home tf n h,
            update_waypoint_sequence,
          )
          refl,
    λ tf.
        rw
          (
            goal_pose-lost frame target n (identity_left target),
            goal_pose-home home target tf n h,
            on_goal_received,
          )
          refl,
  )
