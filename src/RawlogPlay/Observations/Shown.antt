-- ===== src/RawlogPlay/Observations/Shown.antt =====
-- What an observation shows on the topics, without stamps.
use Prim.Native.String.{String}
use mrpt_navigation.Base.{
  false, map, List, [], ◌∷◌, ◌++◌, ok, ◌≡◌, refl, ap, ◌∙◌, append_assoc, is_empty,
}
use mrpt_navigation.Bridge.Sensors.{Bridge, BeaconRanges, BearingRange, BeaconRangeMsg, BearingMsg}
use mrpt_navigation.RawlogPlay.Library.{
  LaserMsg, Rosbridge, Observation, scan, beacons, landmarks, unsupported,
}
use mrpt_navigation.RawlogPlay.Observations.{
  Sent, tf, laser, beacon, landmark, warning, Player, Outcome, or_default,
}

module _ (bridge : Bridge) (ros : Rosbridge bridge) where
  open bridge use {Real, TimeMsg, PoseMsg, to_pose_msg}
  open ros use {
    Scan, scan_label, scan_pose, ScanContent, scan_content, laser_to_ros, Unsupported, Transform,
    to_transform, Pdf,
  }

  -- What a message has beside its stamp and its frame.
  pub data Content : Type 0 where
    ranges : ScanContent → Content
    beacon_ranges : Real → Real → Real → PoseMsg → List (BeaconRangeMsg bridge) → Content
    bearings : Real → Real → Real → Real → Real → PoseMsg → List (BearingMsg bridge) → Content

  -- A transform between two frames, a message of a frame on a topic, or a warning.
  pub data Shown : Type 0 where
    moved : String → String → Transform → Shown
    message : String → String → Content → Shown
    warned : Unsupported → Shown

  abbrev pub show : Sent bridge ros → Shown
  show (tf t) = moved t.frame_id t.child_frame_id t.transform
  show (laser m) = message "scan" m.frame_id (ranges m.content)
  show (beacon m) = message "beacon" m.frame_id (
      beacon_ranges m.sensor_std_range m.max_sensor_distance m.min_sensor_distance
        m.sensor_pose_on_robot m.sensed_data)
  show (landmark m) = message "landmark" m.frame_id (
      bearings m.max_sensor_distance m.min_sensor_distance m.sensor_std_yaw m.sensor_std_pitch
        m.sensor_std_range m.sensor_pose_on_robot m.sensed_data)
  show (warning o) = warned o

  abbrev pub shows : List (Sent bridge ros) → List Shown
  shows [] = []
  shows (m ∷ ms) = show m ∷ shows ms

  -- A sensor's transform from the base, and its message.
  abbrev pub sensed : String → String → String → Transform → Content → List Shown
  sensed base topic frame t content = moved base frame t ∷ message topic frame content ∷ []

  abbrev pub beacons_content : BeaconRanges bridge → Content
  beacons_content o =
      beacon_ranges o.std_error o.max_sensor_distance o.min_sensor_distance
        (to_pose_msg o.sensor_pose)
        (map (λ r. record { range = r.sensed_distance; id = r.beacon_id }) o.sensed_data)

  abbrev pub landmarks_content : BearingRange bridge → Content
  landmarks_content o =
      bearings o.max_sensor_distance o.min_sensor_distance o.sensor_std_yaw o.sensor_std_pitch
        o.sensor_std_range (to_pose_msg o.sensor_pose)
        (map (λ r. record { range = r.range; yaw = r.yaw; pitch = r.pitch; id = r.landmark_id })
          o.sensed_data)

  -- A landmark's label does not reach the message.
  abbrev pub shown_of : String → Observation bridge ros → List Shown
  shown_of base (scan o) =
      sensed base "scan" (or_default "laser_link" (scan_label o)) (to_transform (scan_pose o))
        (ranges (scan_content o))
  shown_of base (beacons o) =
      sensed base "beacon" (or_default "beacon_link" o.sensor_label) (to_transform o.sensor_pose)
        (beacons_content o)
  shown_of base (landmarks o) =
      sensed base "landmark" "landmark_link" (to_transform o.sensor_pose) (landmarks_content o)
  shown_of base (unsupported o) = warned o ∷ []

  abbrev pub shown_of_all : String → List (Observation bridge ros) → List Shown
  shown_of_all base [] = []
  shown_of_all base (o ∷ os) = shown_of base o ++ shown_of_all base os

  -- `toROS` of a scan writes its label and its ranges, whatever message is there.
  abbrev pub FillsScan : Type 0
  FillsScan =
      (o : Scan) (m : LaserMsg TimeMsg ScanContent)
      → ((laser_to_ros o m).frame_id ≡ scan_label o) × ((laser_to_ros o m).content ≡ scan_content o)

  -- `toROS` asks for a measurement.
  abbrev pub CanSend : Observation bridge ros → Type 0
  CanSend (beacons o) = is_empty o.sensed_data ≡ false
  CanSend (landmarks o) = is_empty o.sensed_data ≡ false
  CanSend _ = Unit

  pub shows-append : (ms ns : List (Sent bridge ros)) → shows (ms ++ ns) ≡ shows ms ++ shows ns
  shows-append [] ns = refl
  shows-append (m ∷ ms) ns = ap (λ l. show m ∷ l) (shows-append ms ns)

  abbrev pub LandmarkFrame : Player bridge ros → Type 0
  LandmarkFrame s = or_default "landmark_link" s.msg_landmark.frame_id ≡ "landmark_link"

  -- What publishing adds to what has been shown, and what it leaves as it was.
  pub record Adds (s s' : Player bridge ros) (shown : List Shown) : Type 0 where
    pub base : s'.base_frame ≡ s.base_frame
    pub odom : s'.odom_frame ≡ s.odom_frame
    pub stream : s'.rawlog_stream ≡ s.rawlog_stream
    pub pose : s'.robot_pose ≡ s.robot_pose
    pub count : s'.loop_count ≡ s.loop_count
    pub landmark_frame : LandmarkFrame s'
    pub adds : shows s'.sent ≡ shows s.sent ++ shown

  pub Adds-trans :
      {s t u : Player bridge ros} (ms ns : List Shown)
      → Adds s t ms
      → Adds t u ns
      → Adds s u (ms ++ ns)
  Adds-trans {s} ms ns v w = record {
    base = w.base ∙ v.base;
    odom = w.odom ∙ v.odom;
    stream = w.stream ∙ v.stream;
    pose = w.pose ∙ v.pose;
    count = w.count ∙ v.count;
    landmark_frame = w.landmark_frame;
    adds = w.adds ∙ ap (λ l. l ++ ns) v.adds ∙ append_assoc (shows s.sent) ms ns;
  }

  -- Publishing ends without an exception, and adds to what has been shown.
  abbrev pub Publishes : Player bridge ros → Outcome bridge ros → List Shown → Type 0
  Publishes s o shown = (o.1 ≡ ok tt) × Adds s o.0 shown
