-- ===== src/Bridge/Markers.antt =====
-- marker_msgs.cpp: observations from the markers that a camera has detected.
use mrpt_navigation.Base.{List, [], ◌∷◌, map}
use mrpt_navigation.Bridge.Sensors.{
  Bridge, LandmarkId, minus_one, BeaconRange, BeaconRanges, Bearing, BearingRange,
}

module _ (bridge : Bridge) where
  open bridge use {Real, zero, hypotenuse, atan2, Pose, coords, TimeMsg, of_time_msg}

  -- `marker_msgs::msg::MarkerDetection`
  pub record Marker : Type 0 where
    pub x : Real
    pub y : Real
    pub ids : List LandmarkId

  pub record MarkerDetection : Type 0 where
    pub stamp : TimeMsg
    pub distance_min : Real
    pub distance_max : Real
    pub markers : List Marker

  pub first_id : List LandmarkId → LandmarkId
  first_id [] = minus_one
  first_id (i ∷ _) = i

  bearing_of_marker : Marker → Bearing bridge
  unfolding first_id
  bearing_of_marker m = record {
    range = hypotenuse m.x m.y;
    yaw = atan2 m.y m.x;
    pitch = zero;
    landmark_id = first_id m.ids;
  }

  pub bearings_from_markers : MarkerDetection → Pose → BearingRange bridge → BearingRange bridge
  unfolding bearing_of_marker
  bearings_from_markers src pose des = record des {
    timestamp = of_time_msg src.stamp;
    sensor_pose = pose;
    min_sensor_distance = src.distance_min;
    max_sensor_distance = src.distance_max;
    sensed_data = map bearing_of_marker src.markers;
  }

  beacon_of_marker : Pose → Marker → BeaconRange bridge
  unfolding first_id
  beacon_of_marker pose m = record {
    sensed_distance = hypotenuse m.x m.y;
    beacon_id = first_id m.ids;
    sensor_location = coords pose;
  }

  pub beacons_from_markers : MarkerDetection → Pose → BeaconRanges bridge → BeaconRanges bridge
  unfolding beacon_of_marker
  beacons_from_markers src pose des = record des {
    timestamp = of_time_msg src.stamp;
    sensor_pose = pose;
    min_sensor_distance = src.distance_min;
    max_sensor_distance = src.distance_max;
    sensed_data = map (beacon_of_marker pose) src.markers;
  }
