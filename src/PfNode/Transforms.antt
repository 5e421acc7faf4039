-- ===== src/PfNode/Transforms.antt =====
-- `waitForTransform` of mrpt_pf_localization_node.cpp.
use Prim.Native.String.{String}
use mrpt_navigation.Base.{ℕ, ◌*◌, Bool, Option, none, some, if◌then◌else◌}
use mrpt_navigation.Base.Tf.{TfBuffer, looked_up}
use mrpt_navigation.Pf.Library.{Mrpt}
use mrpt_navigation.PfNode.Library.{Ros}
use mrpt_navigation.PfNode.Node.{Node, Outcome, callback_laser}

module _ {Pose : Type 0} (tf : TfBuffer Pose) where
  open tf use {lookup_transform}

  pub wait_for_transform : Pose → String → String → ℕ → Pose × Bool
  wait_for_transform des frame reference_frame timeout_milliseconds =
      looked_up (lookup_transform reference_frame frame (1000 * timeout_milliseconds)) des

-- The callback of a laser with the node's buffer: the sensor's frame in that of the robot's base, with
-- the default time to wait.
module _ (mrpt : Mrpt) (ros : Ros mrpt) (tf : TfBuffer mrpt.Pose3) where
  if_ok : mrpt.Pose3 × Bool → Option mrpt.Pose3
  if_ok (pose, ok) = if ok then some pose else none

  sensor_pose : String → String → Option mrpt.Pose3
  unfolding wait_for_transform if_ok
  sensor_pose frame_id base_link_frame_id =
      if_ok (wait_for_transform tf mrpt.identity3 frame_id base_link_frame_id 50)

  pub on_laser_topic :
      String → String → ros.LaserScan → mrpt.Label → Node mrpt ros → Outcome mrpt ros
  unfolding sensor_pose
  on_laser_topic frame_id base_link_frame_id msg topic n =
      callback_laser mrpt ros msg topic (sensor_pose frame_id base_link_frame_id) n
