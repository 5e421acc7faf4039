-- ===== src/Bridge/Sensors.antt =====
-- beacon.cpp and landmark.cpp: ranges and bearings. A number keeps its value
-- between an object and its message; poses and times are converted by mrpt::ros2bridge, a parameter.
pub mod RoundTrip
pub mod Posed
use Prim.Native.String.{String}
use mrpt_navigation.Base.{
  ℕ, Bool, true, false, not, Option, none, some, List, [], ◌∷◌, map, Result, ok, err, ◌>>=◌, ◌>>◌,
  assert, if◌then◌else◌, is_empty,
}

-- An `int32` id: a known one, or -1.
pub data LandmarkId : Type 0 where
  known : ℕ → LandmarkId
  minus_one : LandmarkId

pub record Bridge : Type 1 where
  pub Real : Type 0
  pub zero : Real
  -- `sqrt(x * x + y * y)` and `atan2(y, x)`
  pub hypotenuse : Real → Real → Real
  pub atan2 : Real → Real → Real
  pub Pose : Type 0
  pub is_empty_pose : Pose → Bool
  pub PoseMsg : Type 0
  pub to_pose_msg : Pose → PoseMsg
  pub of_pose_msg : PoseMsg → Pose
  pub Coords : Type 0
  pub coords : Pose → Coords
  pub no_coords : Coords
  pub Time : Type 0
  pub TimeMsg : Type 0
  pub to_time_msg : Time → TimeMsg
  pub of_time_msg : TimeMsg → Time

module _ (bridge : Bridge) where
  open bridge use {
    Real, zero, hypotenuse, atan2, Pose, is_empty_pose, PoseMsg, to_pose_msg, of_pose_msg, Coords,
    coords, no_coords, Time, TimeMsg, to_time_msg, of_time_msg,
  }

  -- `CObservationBeaconRanges` and its measurements
  pub record BeaconRange : Type 0 where
    pub sensed_distance : Real
    pub beacon_id : LandmarkId
    pub sensor_location : Coords

  pub record BeaconRanges : Type 0 where
    pub timestamp : Time
    pub sensor_label : String
    pub std_error : Real
    pub max_sensor_distance : Real
    pub min_sensor_distance : Real
    pub sensor_pose : Pose
    pub sensed_data : List BeaconRange

  pub record BeaconRangeMsg : Type 0 where
    pub range : Real
    pub id : LandmarkId

  pub record RangeBeaconMsg : Type 0 where
    pub stamp : TimeMsg
    pub frame_id : String
    pub sensor_std_range : Real
    pub max_sensor_distance : Real
    pub min_sensor_distance : Real
    pub sensor_pose_on_robot : PoseMsg
    pub sensed_data : List BeaconRangeMsg

  -- `if (_pose.empty())` the pose of the message, else the given one
  pub chosen_pose : Pose → PoseMsg → Pose
  chosen_pose given msg = if is_empty_pose given then of_pose_msg msg else given

  -- `resize` and the loop after it: a measurement that was there keeps its sensor location.
  beacons_over : List BeaconRangeMsg → List BeaconRange → List BeaconRange
  beacons_over [] old = []
  beacons_over (m ∷ ms) [] =
      record { sensed_distance = m.range; beacon_id = m.id; sensor_location = no_coords }
      ∷ beacons_over ms []
  beacons_over (m ∷ ms) (r ∷ old) =
      record r { sensed_distance = m.range; beacon_id = m.id } ∷ beacons_over ms old

  beacon_msg : BeaconRange → BeaconRangeMsg
  beacon_msg r = record { range = r.sensed_distance; id = r.beacon_id }

  -- The object of a beacon message. With no measurement ASSERT_ throws after the other fields
  -- have been written: the object keeps its measurements.
  pub beacon_from_ros : RangeBeaconMsg → Pose → BeaconRanges → BeaconRanges × Result Bool
  unfolding chosen_pose beacons_over
  beacon_from_ros msg pose obj =
      let head = record obj {
        timestamp = of_time_msg msg.stamp;
        std_error = msg.sensor_std_range;
        sensor_label = msg.frame_id;
        max_sensor_distance = msg.max_sensor_distance;
        min_sensor_distance = msg.min_sensor_distance;
        sensor_pose = chosen_pose pose msg.sensor_pose_on_robot;
      } in
      elim (assert (not (is_empty msg.sensed_data))) [
        | err e ↦ (head, err e)
        | ok _ ↦
            (record head { sensed_data = beacons_over msg.sensed_data obj.sensed_data }, ok true)
      ]

  unfoldable pub beacon_to_ros : BeaconRanges → RangeBeaconMsg → RangeBeaconMsg × Result Bool
  unfolding beacon_msg
  beacon_to_ros obj msg =
      let head = record msg {
        stamp = to_time_msg obj.timestamp;
        sensor_pose_on_robot = to_pose_msg obj.sensor_pose;
        sensor_std_range = obj.std_error;
        frame_id = obj.sensor_label;
        max_sensor_distance = obj.max_sensor_distance;
        min_sensor_distance = obj.min_sensor_distance;
      } in
      elim (assert (not (is_empty obj.sensed_data))) [
        | err e ↦ (head, err e)
        | ok _ ↦ (record head { sensed_data = map beacon_msg obj.sensed_data }, ok true)
      ]

  -- `CObservationBearingRange` and its measurements
  pub record Bearing : Type 0 where
    pub range : Real
    pub yaw : Real
    pub pitch : Real
    pub landmark_id : LandmarkId

  pub record BearingRange : Type 0 where
    pub timestamp : Time
    pub sensor_label : String
    pub max_sensor_distance : Real
    pub min_sensor_distance : Real
    pub sensor_std_yaw : Real
    pub sensor_std_pitch : Real
    pub sensor_std_range : Real
    pub sensor_pose : Pose
    pub sensed_data : List Bearing

  pub record BearingMsg : Type 0 where
    pub range : Real
    pub yaw : Real
    pub pitch : Real
    pub id : LandmarkId

  pub record RangeBearingMsg : Type 0 where
    pub stamp : TimeMsg
    pub frame_id : String
    pub max_sensor_distance : Real
    pub min_sensor_distance : Real
    pub sensor_std_yaw : Real
    pub sensor_std_pitch : Real
    pub sensor_std_range : Real
    pub sensor_pose_on_robot : PoseMsg
    pub sensed_data : List BearingMsg

  bearing_of : BearingMsg → Bearing
  bearing_of m = record { range = m.range; yaw = m.yaw; pitch = m.pitch; landmark_id = m.id }

  bearing_msg : Bearing → BearingMsg
  bearing_msg r = record { range = r.range; yaw = r.yaw; pitch = r.pitch; id = r.landmark_id }

  -- The label is not written: it is commented out in the code.
  pub landmark_from_ros : RangeBearingMsg → Pose → BearingRange → BearingRange × Result Bool
  unfolding chosen_pose bearing_of
  landmark_from_ros msg pose obj =
      let head = record obj {
        timestamp = of_time_msg msg.stamp;
        max_sensor_distance = msg.max_sensor_distance;
        min_sensor_distance = msg.min_sensor_distance;
        sensor_std_yaw = msg.sensor_std_yaw;
        sensor_std_pitch = msg.sensor_std_pitch;
        sensor_std_range = msg.sensor_std_range;
        sensor_pose = chosen_pose pose msg.sensor_pose_on_robot;
      } in
      elim (assert (not (is_empty msg.sensed_data))) [
        | err e ↦ (head, err e)
        | ok _ ↦ (record head { sensed_data = map bearing_of msg.sensed_data }, ok true)
      ]

  unfoldable pub landmark_to_ros : BearingRange → RangeBearingMsg → RangeBearingMsg × Result Bool
  unfolding bearing_msg
  landmark_to_ros obj msg =
      let head = record msg {
        stamp = to_time_msg obj.timestamp;
        sensor_pose_on_robot = to_pose_msg obj.sensor_pose;
        max_sensor_distance = obj.max_sensor_distance;
        min_sensor_distance = obj.min_sensor_distance;
        sensor_std_yaw = obj.sensor_std_yaw;
        sensor_std_pitch = obj.sensor_std_pitch;
        sensor_std_range = obj.sensor_std_range;
      } in
      elim (assert (not (is_empty obj.sensed_data))) [
        | err e ↦ (head, err e)
        | ok _ ↦ (record head { sensed_data = map bearing_msg obj.sensed_data }, ok true)
      ]
