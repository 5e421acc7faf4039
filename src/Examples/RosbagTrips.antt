-- ===== src/Examples/RosbagTrips.antt =====
-- rosbag2rawlog on a bag of three messages, with one sensor that has a fixed pose.
use Prim.Native.String.{String}
use mrpt_navigation.Base.{ℕ, true, Option, none, some, List, [], ◌∷◌, ◌++◌, ok}
use mrpt_navigation.Rosbag.Library.{Bag, image}
use mrpt_navigation.Rosbag.Transcriber.{Callback, sensor, observations, Transcriber, only_tf}
use mrpt_navigation.Examples.Toy.{Tree, nothing, word, entry, trees}

abbrev members_of : Tree → Option (List (String × Tree))
members_of nothing = some []
members_of (entry k v rest) = elim (members_of rest) [ none ↦ none | some ms ↦ some ((k, v) ∷ ms) ]
members_of _ = none

-- A message is its topic and a number, and what it holds is the number.
abbrev bag : Bag
bag = record {
  Real = ℕ;
  yaml = trees;
  members = members_of;
  Pose = ℕ;
  pose_from_string = λ s. some 5;
  x = λ p. p;
  y = λ p. p;
  yaw = λ p. p;
  Stamp = ℕ;
  Content = ℕ;
  Buffer = List ℕ;
  empty_buffer = [];
  Transform = ℕ;
  set_transform = λ b t s. some (t ∷ b);
  lookup_transform = λ b target source. none;
  Msg = String × ℕ;
  topic_name = λ m. m.0;
  transforms_of = λ m. ok (m.1 ∷ []);
  Cloud = ℕ;
  cloud_of = λ m. ok m.1;
  cloud_header = λ c. record { stamp = c; frame = "lidar" };
  extract_fields = λ c. "x" ∷ "y" ∷ "z" ∷ [];
  as_xyzirt = λ c. none;
  as_xyzi = λ c. none;
  as_xyz = λ c. some c;
  as_rotating = λ c. none;
  Scan = ℕ;
  scan_of = λ m. ok m.1;
  scan_header = λ c. record { stamp = c; frame = "laser" };
  scan_content = λ c. c;
  Imu = ℕ;
  imu_of = λ m. ok m.1;
  imu_header = λ c. record { stamp = c; frame = "imu" };
  imu_into = λ c o. record o { content = some c };
  Gps = ℕ;
  gps_of = λ m. ok m.1;
  gps_header = λ c. record { stamp = c; frame = "gps" };
  gps_into = λ c o. record o { content = some c };
  Odom = ℕ;
  odom_of = λ m. ok m.1;
  odom_header = λ c. record { stamp = c; frame = "odom" };
  odom_pose = λ c. c;
  linear_x = λ c. c;
  linear_y = λ c. c;
  angular_z = λ c. c;
  odometry_content = λ p v. p.0;
  Image = ℕ;
  image_of = λ m. ok m.1;
  image_header = λ c. record { stamp = c; frame = "camera" };
  image_content = λ c. ok c;
  Object = ℕ;
  object_of = λ m. ok (some m.1);
  GenericObservation = ℕ;
  as_observation = λ o. some o;
  has_xyzirt = true;
}

abbrev camera : Tree
camera =
    entry "type" (word "CObservationImage")
      (entry "image_topic" (word "/cam") (entry "fixed_sensor_pose" (word "0 0 1 0 0 0") nothing))

abbrev config : Tree
config = entry "sensors" (entry "front" camera nothing) nothing

abbrev camera_callback : Callback bag "base_link"
camera_callback = sensor (observations image) "front" (some 5)

abbrev built : Transcriber bag "base_link"
built = record (only_tf bag "base_link") {
  lookup = (only_tf bag "base_link").lookup ++ ("/cam", camera_callback ∷ []) ∷ [];
}

abbrev messages : List (String × ℕ)
messages = ("/tf", 1) ∷ ("/cam", 2) ∷ ("/cam", 3) ∷ []
