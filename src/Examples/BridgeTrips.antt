-- ===== src/Examples/BridgeTrips.antt =====
-- Graphs, beacons and landmarks sent through their messages.
use Prim.Native.Nat.{ℕ}
use mrpt_navigation.Base.{
  Bool, true, false, [], ◌∷◌, ◌++◌, ok, err, assertion_failed, ◌≡◌, refl, is_empty,
}
use mrpt_navigation.Base.StdMap.{nat_key}
use mrpt_navigation.Bridge.Graphs as Graphs
use mrpt_navigation.Bridge.Graphs.RoundTrip.{
  no_message, no_graph, returned, from_ros-to_ros, from_ros_na-to_ros_na,
}
use mrpt_navigation.Bridge.Sensors as Sensors
use mrpt_navigation.Bridge.Sensors.RoundTrip.{landmark_from_ros-to_ros}

-- Numbers for poses and densities; edges are put at the end.
abbrev plain : Graphs.Bridge
plain = record {
  Pose = ℕ;
  PoseMsg = ℕ;
  to_pose_msg = λ p. p;
  of_pose_msg = λ p. p;
  Density = ℕ × Bool;
  DensityMsg = ℕ × Bool;
  inverse = λ d. (d.0, true);
  to_density_msg = λ d. d;
  of_density_msg = λ d. d;
  insert_edge = λ k d es. es ++ (k, d) ∷ [];
}

abbrev graph : Graphs.Graph plain ℕ
graph = record {
  root = 1;
  nodes = (1, 10) ∷ (4, 40) ∷ [];
  edges = ((1, 4), (7, false)) ∷ ((4, 1), (8, false)) ∷ [];
  edges_store_inverse_poses = true;
}

abbrev named : Graphs.Graph plain (Graphs.Annotated plain)
named = record {
  root = 1;
  nodes = (1, record { pose = 10; agent_id_str = "robot"; node_id_loc = 3 }) ∷ [];
  edges = ((1, 1), (7, false)) ∷ [];
  edges_store_inverse_poses = false;
}

from_ros-to_ros_example :
    Graphs.from_ros plain (Graphs.to_ros plain graph (no_message plain)) (no_graph plain)
    ≡ returned plain graph
from_ros-to_ros_example = from_ros-to_ros plain (λ p. refl) (λ d. refl) graph (refl, (tt, tt)) refl

from_ros_na-to_ros_na_example :
    Graphs.from_ros_na plain (Graphs.to_ros_na plain named (no_message plain)) (no_graph plain)
    ≡ returned plain named
from_ros_na-to_ros_na_example =
    from_ros_na-to_ros_na plain (λ p. refl) (λ d. refl) named (tt, tt) refl

abbrev pub simple : Sensors.Bridge
simple = record {
  Real = ℕ;
  zero = 0;
  hypotenuse = λ a b. a;
  atan2 = λ a b. b;
  Pose = ℕ;
  is_empty_pose = λ p. false;
  PoseMsg = ℕ;
  to_pose_msg = λ p. p;
  of_pose_msg = λ p. p;
  Coords = ℕ;
  coords = λ p. p;
  no_coords = 0;
  Time = ℕ;
  TimeMsg = ℕ;
  to_time_msg = λ t. t;
  of_time_msg = λ t. t;
}

abbrev pub seen : Sensors.BearingRange simple
seen = record {
  timestamp = 5;
  sensor_label = "camera";
  max_sensor_distance = 9;
  min_sensor_distance = 1;
  sensor_std_yaw = 1;
  sensor_std_pitch = 1;
  sensor_std_range = 2;
  sensor_pose = 3;
  sensed_data = record { range = 4; yaw = 1; pitch = 0; landmark_id = Sensors.known 12 } ∷ [];
}

abbrev unseen : Sensors.BearingRange simple
unseen = record seen { sensor_label = ""; sensed_data = [] }

abbrev pub bearing_message : Sensors.RangeBearingMsg simple
bearing_message = record {
  stamp = 0;
  frame_id = "";
  max_sensor_distance = 0;
  min_sensor_distance = 0;
  sensor_std_yaw = 0;
  sensor_std_pitch = 0;
  sensor_std_range = 0;
  sensor_pose_on_robot = 0;
  sensed_data = [];
}

-- `CPose3D::empty()` is false for every pose: the given one is taken.
landmark_from_ros-to_ros_example :
    (is_empty seen.sensed_data ≡ false
      → Sensors.landmark_from_ros simple
          (Sensors.landmark_to_ros simple seen bearing_message).0
          6
          unseen
        ≡ (record seen { sensor_label = ""; sensor_pose = 6 }, ok true))
    × (is_empty seen.sensed_data ≡ true
        → (Sensors.landmark_to_ros simple seen bearing_message).1 ≡ err assertion_failed)
landmark_from_ros-to_ros_example =
    landmark_from_ros-to_ros simple (λ p. refl) (λ t. refl) seen unseen bearing_message 6

abbrev pub heard : Sensors.BeaconRanges simple
heard = record {
  timestamp = 5;
  sensor_label = "radio";
  std_error = 1;
  max_sensor_distance = 9;
  min_sensor_distance = 1;
  sensor_pose = 3;
  sensed_data =
      record { sensed_distance = 4; beacon_id = Sensors.known 12; sensor_location = 3 } ∷ [];
}

abbrev pub beacon_message : Sensors.RangeBeaconMsg simple
beacon_message = record {
  stamp = 0;
  frame_id = "";
  sensor_std_range = 0;
  max_sensor_distance = 0;
  min_sensor_distance = 0;
  sensor_pose_on_robot = 0;
  sensed_data = [];
}
