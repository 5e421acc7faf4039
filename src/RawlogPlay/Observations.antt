-- ===== src/RawlogPlay/Observations.antt =====
-- `RawlogPlayNode` and its `publishSingleObservation`.
pub mod Shown
pub mod Published
use Prim.Native.String.{String}
use mrpt_navigation.Base.{ℕ, suc, List, [], ◌∷◌, ◌++◌, Result, ok, err, if◌then◌else◌, same_text}
use mrpt_navigation.Bridge.Sensors.{
  Bridge, BeaconRanges, RangeBeaconMsg, BearingRange, RangeBearingMsg, beacon_to_ros,
  landmark_to_ros,
}
use mrpt_navigation.RawlogPlay.Library.{
  LaserMsg, Rosbridge, Observation, scan, beacons, landmarks, unsupported, Entry,
}

-- `if (frame.empty()) frame = default`
abbrev pub or_default : String → String → String
or_default default frame = if same_text frame "" then default else frame

module _ (bridge : Bridge) (ros : Rosbridge bridge) where
  open bridge use {Pose, TimeMsg}
  open ros use {
    Scan, scan_pose, ScanContent, laser_to_ros, Unsupported, Transform, to_transform, Pdf, PdfMsg,
    now, soon,
  }

  pub record TransformStamped : Type 0 where
    pub stamp : TimeMsg
    pub frame_id : String
    pub child_frame_id : String
    pub transform : Transform

  pub record Odometry : Type 0 where
    pub stamp : TimeMsg
    pub frame_id : String
    pub child_frame_id : String
    pub pose : PdfMsg

  -- What the node sends, and the warning of an observation that it cannot send.
  pub data Sent : Type 0 where
    tf : TransformStamped → Sent
    laser : LaserMsg TimeMsg ScanContent → Sent
    beacon : RangeBeaconMsg bridge → Sent
    landmark : RangeBearingMsg bridge → Sent
    warning : Unsupported → Sent

  -- The node, with the rest of the rawlog, the number of times that the clock has been read, and
  -- what has been sent. Its counter of entries is left out: only MRPT reads it. So is `header.seq`.
  pub record Player : Type 0 where
    pub odom_frame : String
    pub base_frame : String
    pub rawlog_stream : List (Entry bridge ros)
    pub robot_pose : Pdf
    pub msg_laser : LaserMsg TimeMsg ScanContent
    pub msg_beacon : RangeBeaconMsg bridge
    pub msg_landmark : RangeBearingMsg bridge
    pub msg_odom : Odometry
    pub loop_count : ℕ
    pub clock_reads : ℕ
    pub sent : List Sent

  abbrev pub Outcome : Type 0
  Outcome = Player × Result (Unit {0})

  -- The transform from the base to the sensor, after the clock has been read.
  send_tf_sensor_pose : TimeMsg → String → Pose → Player → Player
  send_tf_sensor_pose stamp frame pose s = record s {
    sent =
        s.sent
        ++ tf (record {
          stamp = soon stamp;
          frame_id = s.base_frame;
          child_frame_id = frame;
          transform = to_transform pose;
        })
          ∷ [];
    clock_reads = suc s.clock_reads;
  }

  publish_scan : Scan → Player → Outcome
  unfolding send_tf_sensor_pose
  publish_scan o s =
      let filled = laser_to_ros o s.msg_laser in
      let time = now s.clock_reads in
      let msg : LaserMsg TimeMsg ScanContent = record filled {
        frame_id = or_default "laser_link" filled.frame_id;
        stamp = time;
      } in
      let s' = send_tf_sensor_pose time msg.frame_id (scan_pose o) s in
      (record s' { msg_laser = msg; sent = s'.sent ++ laser msg ∷ [] }, ok tt)

  publish_beacons : BeaconRanges bridge → Player → Outcome
  unfolding send_tf_sensor_pose
  publish_beacons o s =
      let (filled, r) = beacon_to_ros bridge o s.msg_beacon in
      elim r [
        | err e ↦ (record s { msg_beacon = filled }, err e)
        | ok _ ↦
            let time = now s.clock_reads in
            let msg : RangeBeaconMsg bridge = record filled {
              frame_id = or_default "beacon_link" filled.frame_id;
              stamp = time;
            } in
            let s' = send_tf_sensor_pose time msg.frame_id o.sensor_pose s in
            (record s' { msg_beacon = msg; sent = s'.sent ++ beacon msg ∷ [] }, ok tt)
      ]

  publish_landmarks : BearingRange bridge → Player → Outcome
  unfolding send_tf_sensor_pose
  publish_landmarks o s =
      let (filled, r) = landmark_to_ros bridge o s.msg_landmark in
      elim r [
        | err e ↦ (record s { msg_landmark = filled }, err e)
        | ok _ ↦
            let time = now s.clock_reads in
            let msg : RangeBearingMsg bridge = record filled {
              frame_id = or_default "landmark_link" filled.frame_id;
              stamp = time;
            } in
            let s' = send_tf_sensor_pose time msg.frame_id o.sensor_pose s in
            (record s' { msg_landmark = msg; sent = s'.sent ++ landmark msg ∷ [] }, ok tt)
      ]

  pub publish_single_observation : Observation bridge ros → Player → Outcome
  unfolding publish_scan publish_beacons publish_landmarks
  publish_single_observation (scan o) s = publish_scan o s
  publish_single_observation (beacons o) s = publish_beacons o s
  publish_single_observation (landmarks o) s = publish_landmarks o s
  publish_single_observation (unsupported o) s =
      (record s { sent = s.sent ++ warning o ∷ [] }, ok tt)
