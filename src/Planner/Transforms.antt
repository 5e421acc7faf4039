-- ===== src/Planner/Transforms.antt =====
-- What `TPS_Astar_Planner_Node` takes from tf.
use Prim.Native.String.{String}
use mrpt_navigation.Base.{ℕ, ◌*◌, Bool, Option, none, some, Result, if◌then◌else◌}
use mrpt_navigation.Base.Tf.{TfBuffer, looked_up}
use mrpt_navigation.Planner.Library.{Mpp}
use mrpt_navigation.Planner.Node.{Planner}
use mrpt_navigation.Planner.Services.{Response, callback_goal, srv_make_plan_to}

module _ (mpp : Mpp) (tf : TfBuffer mpp.Pose3) (identity3 : mpp.Pose3) where
  open mpp use {Pose2, Pose3}
  open tf use {lookup_transform}

  -- The frames change their places on the way to tf.
  wait_for_transform : Pose3 → String → String → ℕ → Pose3 × Bool
  wait_for_transform des target_frame source_frame timeout_milliseconds =
      looked_up (lookup_transform source_frame target_frame (1000 * timeout_milliseconds)) des

  if_ok : Pose3 × Bool → Option Pose3
  if_ok (pose, ok) = if ok then some pose else none

  -- `robot_pose`, if `robot_pose_ok`
  pub robot_pose : String → String → Option Pose3
  unfolding wait_for_transform if_ok
  robot_pose frame_id_robot frame_id_map =
      if_ok (wait_for_transform identity3 frame_id_robot frame_id_map 50)

  -- The goal callback and the service, with the node's buffer.
  pub on_goal_topic : String → String → Pose2 → Planner mpp → Planner mpp × Result (Unit {0})
  on_goal_topic frame_id_robot frame_id_map goal n =
      callback_goal mpp goal (robot_pose frame_id_robot frame_id_map) n

  pub on_make_plan_to :
      String
      → String
      → Pose2
      → Response mpp
      → Planner mpp
      → Planner mpp × Response mpp × Result (Unit {0})
  on_make_plan_to frame_id_robot frame_id_map target resp n =
      srv_make_plan_to mpp target (robot_pose frame_id_robot frame_id_map) resp n
