-- ===== src/Nav/Transforms.antt =====
-- What `ReactiveNav2DNode` takes from tf: `waitForTransform` and `getCurrentPoseAndSpeeds`, and the
-- handlers with what they take.
use Prim.Native.String.{String}
use mathlib.Core.Option
use mrpt_navigation.Base.{
  ℕ, ◌*◌, Bool, true, false, Option, none, some, Result, ◌≡◌, refl, sym, ◌∙◌, arith, same_text,
  value_or, if◌then◌else◌,
}
use mrpt_navigation.Base.Tf.{TfBuffer, looked_up}
use mrpt_navigation.Nav.Library.{Mrpt}
use mrpt_navigation.Nav.Node.{Node}
use mrpt_navigation.Nav.Markers.{Marker}
use mrpt_navigation.Nav.Commands.{
  WaypointSequence, relative_pose, on_waypoint_seq_received, on_goal_received, on_do_navigation,
}

module _ (mrpt : Mrpt) (tf : TfBuffer mrpt.Pose3) where
  open mrpt use {Real, ratio, Pose2, Pose3, flatten, identity3}
  open tf use {Stamp, lookup_transform}

  -- `rclcpp::Duration(0, 1000 * timeoutMilliseconds)` is in nanoseconds.
  wait_for_transform : Pose3 → String → String → ℕ → Pose3 × Bool
  wait_for_transform des target_frame source_frame milliseconds =
      looked_up (lookup_transform target_frame source_frame (1000 * milliseconds)) des

  pose_only : Option (Pose3 × Stamp) → Option Pose3
  pose_only none = none
  pose_only (some found) = some found.0

  -- The answer for a frame, with the default time to wait.
  frame_answer : String → Node mrpt → Option Pose3
  frame_answer frame n = pose_only (lookup_transform n.frame_reference frame (1000 * 50))

  -- The handlers of the topics, with the node's buffer.
  pub on_waypoint_seq_topic : WaypointSequence mrpt → Node mrpt → Node mrpt
  unfolding frame_answer
  on_waypoint_seq_topic msg n = on_waypoint_seq_received mrpt msg (frame_answer msg.frame_id n) n

  pub on_goal_topic : String → Pose3 → Node mrpt → Node mrpt
  unfolding frame_answer
  on_goal_topic frame target n = on_goal_received mrpt frame target (frame_answer frame n) n

  -- `TTwist2D(v, 0, w).rotated(phi)` is by a parameter: the speeds, then the pose with the angle.
  module _ {Twist : Type 0} (rotated : Real → Real → Real → Pose2 → Twist) where
    pub record PoseAndSpeeds : Type 0 where
      pub cur_pose : Pose2
      pub cur_vel : Twist
      pub timestamp : Stamp
      pub cur_odometry : Pose2

    reported : Option (Pose3 × Stamp) → Option PoseAndSpeeds
    reported none = none
    reported (some (robot, stamp)) = some (record {
      cur_pose = flatten robot;
      cur_vel = rotated (ratio 0 1) (ratio 0 1) (ratio 0 1) (flatten robot);
      timestamp = stamp;
      cur_odometry = flatten robot;
    })

    -- The speeds are always zero.
    pub get_current_pose_and_speeds : Node mrpt → Option PoseAndSpeeds
    unfolding reported
    get_current_pose_and_speeds n =
        reported (lookup_transform n.frame_reference n.frame_robot (100 * 1000 * 1000))

  -- `on_do_navigation`, with what the engine asks for.
  pub run_navigation : Node mrpt → Node mrpt × Result (Option (Marker mrpt))
  run_navigation n =
      on_do_navigation mrpt
        (Option.map (λ r. r.cur_pose) (get_current_pose_and_speeds (λ v w u p. p) n)) n

  looked_up-value :
      (answer : Option (Pose3 × Stamp))
      → (looked_up answer identity3).0 ≡ value_or (pose_only answer) identity3
  unfolding pose_only
  looked_up-value none = refl
  looked_up-value (some found) = refl

  if-false : (b : Bool) (p q : Pose3) → b ≡ false → (if b then p else q) ≡ q
  if-false true p q h = ground (arith, h)
  if-false false p q h = refl

  -- The relative pose that the handlers move waypoints by is what `waitForTransform` leaves in a pose
  -- that is the identity, whether it finds one or not.
  relative_pose-waited :
      (frame : String) (n : Node mrpt)
      → same_text frame n.frame_reference ≡ false
      → (wait_for_transform identity3 n.frame_reference frame 50).0
        ≡ relative_pose mrpt frame (frame_answer frame n) n
  unfolding wait_for_transform frame_answer relative_pose
  relative_pose-waited frame n other =
      looked_up-value (lookup_transform n.frame_reference frame (1000 * 50))
      ∙ sym (if-false _ _ _ other)
