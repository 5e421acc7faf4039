-- ===== src/Rosbag/Transcriber.antt =====
-- The class `Transcriber` of rosbag2rawlog.cpp: the sensors of its configuration, and the callbacks
-- that convert the messages of each topic.
pub mod Registered
use Prim.Native.String
use Prim.Native.String.{String}
use mrpt_navigation.Base.{
  Bool, true, false, ◌||◌, Option, none, some, List, [], ◌∷◌, ◌++◌, Result, ok, err, ◌>>=◌,
  or_throw, missing_key, bad_cast, not_implemented, if◌then◌else◌, same_text,
}
use mrpt_navigation.Rosbag.Library.{
  Bag, ObservationClass, image, point_cloud, range_scan, rotating_scan, imu, gps, odometry,
}
use mrpt_navigation.Rosbag.Convert.{
  Entry, Obs, to_point_cloud2, to_lidar_2d, to_rotating_scan, to_imu, to_gps, to_odometry, to_image,
  from_generic_mrpt_observation, to_tf,
}
use mrpt_navigation.Rosbag.Topics.{find, add}

abbrev pub contains_text : String → List String → Bool
contains_text s [] = false
contains_text s (t ∷ ts) = same_text s t || contains_text s ts

-- A sensor's `type`, and the key of its topic.
pub data Conversion : Type 0 where
  observations : ObservationClass → Conversion
  generic_observation : Conversion

unfoldable pub conversion_of : String → Option Conversion
conversion_of type =
    if same_text type "CObservationImage"
    then some (observations image)
    else if same_text type "CObservationPointCloud"
    then some (observations point_cloud)
    else if same_text type "CObservation2DRangeScan"
    then some (observations range_scan)
    else if same_text type "CObservationRotatingScan"
    then some (observations rotating_scan)
    else if same_text type "CObservationIMU"
    then some (observations imu)
    else if same_text type "CObservationGPS"
    then some (observations gps)
    else if same_text type "CObservationOdometry"
    then some (observations odometry)
    else if same_text type "GenericObservation"
    then some generic_observation
    else none

abbrev pub topic_key : Conversion → String
topic_key (observations image) = "image_topic"
topic_key _ = "topic"

module _ (bag : Bag) (base_link : String) where
  open bag use {
    Node, has, at, as_text, members, Pose, pose_from_string, Buffer, empty_buffer, Msg, topic_name,
  }

  -- The lambdas that the constructor registers, by what they capture.
  pub data Callback : Type 0 where
    tf : Bool → Callback
    sensor : Conversion → String → Option Pose → Callback

  pub record Transcriber : Type 0 where
    pub lookup : List (String × List Callback)
    pub unhandled_topics : List String
    pub tf_buffer : Buffer

  -- `sensor.at(key).as<std::string>()`
  text_at : Node → String → Result String
  text_at s key = or_throw (at s key) missing_key >>= λ n. or_throw (as_text n) bad_cast

  fixed_pose : Node → Result (Option Pose)
  unfolding text_at
  fixed_pose s =
      if has s "fixed_sensor_pose"
      then (text_at s "fixed_sensor_pose" >>= λ text.
          or_throw (pose_from_string (String.◌++◌ "[" (String.◌++◌ text "]"))) bad_cast >>= λ pose.
          ok (some pose))
      else ok none

  -- The topic and the callback of one sensor of the configuration.
  unfoldable pub parse_sensor : String × Node → Result (String × Callback)
  unfolding text_at fixed_pose conversion_of
  parse_sensor (name, s) = or_throw (members s) bad_cast >>= λ fields. text_at s "type" >>= λ type.
      fixed_pose s >>= λ fixed. or_throw (conversion_of type) not_implemented >>= λ c.
      text_at s (topic_key c) >>= λ topic. ok (topic, sensor c name fixed)

  unfoldable pub add_sensors : List (String × Node) → Transcriber → Result Transcriber
  unfolding parse_sensor add
  add_sensors [] t = ok t
  add_sensors (s ∷ ss) t = parse_sensor s >>= λ (topic, callback).
      add_sensors ss (record t { lookup = add topic callback t.lookup })

  abbrev pub only_tf : Transcriber
  only_tf = record {
    lookup = ("/tf", tf false ∷ []) ∷ ("/tf_static", tf true ∷ []) ∷ [];
    unhandled_topics = [];
    tf_buffer = empty_buffer;
  }

  unfoldable pub new_transcriber : Node → Result Transcriber
  unfolding add_sensors
  new_transcriber config = or_throw (at config "sensors") missing_key >>= λ n.
      or_throw (members n) bad_cast >>= λ sensors. add_sensors sensors only_tf

  pub convert : ObservationClass → String → Option Pose → Buffer → Msg → Result (Obs bag base_link)
  unfolding to_image to_point_cloud2 to_lidar_2d to_rotating_scan to_imu to_gps to_odometry
  convert image name fixed b m = to_image bag base_link name fixed b m
  convert point_cloud name fixed b m = to_point_cloud2 bag base_link name fixed b m
  convert range_scan name fixed b m = to_lidar_2d bag base_link name fixed b m
  convert rotating_scan name fixed b m = to_rotating_scan bag base_link name fixed b m
  convert imu name fixed b m = to_imu bag base_link name fixed b m
  convert gps name fixed b m = to_gps bag base_link name fixed b m
  convert odometry name fixed b m = to_odometry bag base_link name m

  pub call : Callback → Msg → Buffer → Result (Buffer × Obs bag base_link)
  unfolding convert to_tf from_generic_mrpt_observation
  call (tf is_static) m b = to_tf bag base_link is_static b m >>= λ b'. ok (b', [])
  call (sensor (observations c) name fixed) m b = convert c name fixed b m >>= λ obs. ok (b, obs)
  call (sensor generic_observation name fixed) m b =
      from_generic_mrpt_observation bag base_link m >>= λ obs. ok (b, obs)

  unfoldable pub call_all : List Callback → Msg → Buffer → Result (Buffer × Obs bag base_link)
  unfolding call
  call_all [] m b = ok (b, [])
  call_all (c ∷ cs) m b =
      call c m b >>= λ (b', obs). call_all cs m b' >>= λ (b'', rest). ok (b'', obs ++ rest)

  -- A topic without callbacks is warned of once.
  unfoldable pub to_mrpt : Msg → Transcriber → Result (Transcriber × Obs bag base_link)
  unfolding find call_all
  to_mrpt m t = elim (find (topic_name m) t.lookup) [
    | none ↦ ok (
      (if contains_text (topic_name m) t.unhandled_topics
          then t
          else record t { unhandled_topics = topic_name m ∷ t.unhandled_topics }),
      [],
    )
    | some callbacks ↦
        call_all callbacks m t.tf_buffer >>= λ (b, obs). ok (record t { tf_buffer = b }, obs)
  ]
