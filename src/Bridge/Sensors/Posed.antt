-- ===== src/Bridge/Sensors/Posed.antt =====
-- The overloads of `toROS` in beacon.cpp and landmark.cpp that also write the sensor pose.
use mrpt_navigation.Base.{
  Bool, true, false, Result, ok, err, assertion_failed, ◌≡◌, arith, is_empty,
}
use mrpt_navigation.Bridge.Sensors.{
  Bridge, BeaconRanges, RangeBeaconMsg, beacon_to_ros, BearingRange, RangeBearingMsg,
  landmark_to_ros,
}

module _ (bridge : Bridge) where
  open bridge use {PoseMsg, to_pose_msg}

  pub beacon_to_ros_posed :
      BeaconRanges bridge
      → RangeBeaconMsg bridge
      → PoseMsg
      → RangeBeaconMsg bridge × PoseMsg × Result Bool
  beacon_to_ros_posed obj msg pose =
      let (msg', outcome) = beacon_to_ros bridge obj msg in
      elim outcome [
        | err e ↦ (msg', pose, err e)
        | ok _ ↦ (msg', to_pose_msg obj.sensor_pose, ok true)
      ]

  pub landmark_to_ros_posed :
      BearingRange bridge
      → RangeBearingMsg bridge
      → PoseMsg
      → RangeBearingMsg bridge × PoseMsg × Result Bool
  landmark_to_ros_posed obj msg pose =
      let (msg', outcome) = landmark_to_ros bridge obj msg in
      elim outcome [
        | err e ↦ (msg', pose, err e)
        | ok _ ↦ (msg', to_pose_msg obj.sensor_pose, ok true)
      ]

  -- The pose that is written beside a beacon message is the one in the message; an observation
  -- without measurements throws, and leaves the pose as it was although the message has the new one.
  beacon_to_ros_posed-pose :
      (obj : BeaconRanges bridge) (msg : RangeBeaconMsg bridge) (pose : PoseMsg)
      → let (msg', pose', outcome) = beacon_to_ros_posed obj msg pose in
        (is_empty obj.sensed_data ≡ false
          → (pose' ≡ msg'.sensor_pose_on_robot) × (outcome ≡ ok true))
        × (is_empty obj.sensed_data ≡ true → (pose' ≡ pose) × (outcome ≡ err assertion_failed))
        × (msg'.sensor_pose_on_robot ≡ to_pose_msg obj.sensor_pose)
  unfolding beacon_to_ros_posed beacon_to_ros
  beacon_to_ros_posed-pose obj msg pose =
      (λ h. (ground arith, ground arith), λ h. (ground arith, ground arith), ground arith)

  -- The same for landmarks.
  landmark_to_ros_posed-pose :
      (obj : BearingRange bridge) (msg : RangeBearingMsg bridge) (pose : PoseMsg)
      → let (msg', pose', outcome) = landmark_to_ros_posed obj msg pose in
        (is_empty obj.sensed_data ≡ false
          → (pose' ≡ msg'.sensor_pose_on_robot) × (outcome ≡ ok true))
        × (is_empty obj.sensed_data ≡ true → (pose' ≡ pose) × (outcome ≡ err assertion_failed))
        × (msg'.sensor_pose_on_robot ≡ to_pose_msg obj.sensor_pose)
  unfolding landmark_to_ros_posed landmark_to_ros
  landmark_to_ros_posed-pose obj msg pose =
      (λ h. (ground arith, ground arith), λ h. (ground arith, ground arith), ground arith)
