-- ===== src/Rosbag/Library.antt =====
-- What rosbag2rawlog.cpp takes from ROS, tf2 and MRPT: a parameter.
use Prim.Native.String.{String}
use mrpt_navigation.Base.{Bool, Option, List, Result}
use mrpt_navigation.Pf.Library.{Yaml}

-- The class that an observation is created with.
pub data ObservationClass : Type 0 where
  image point_cloud range_scan rotating_scan imu gps odometry : ObservationClass

-- The pose is `none` until it is written, the content until it is converted.
pub record Observation (Stamp Pose Content : Type 0) : Type 0 where
  pub kind : ObservationClass
  pub label : String
  pub stamp : Stamp
  pub pose : Option Pose
  pub content : Option Content

pub record Header (Stamp : Type 0) : Type 0 where
  pub stamp : Stamp
  pub frame : String

pub record Bag : Type 1 where
  pub Real : Type 0
  pub yaml : Yaml Real
  pub open yaml use *
  -- `asMap` with its keys as texts; `none` for what is no map
  pub members : Node → Option (List (String × Node))
  pub Pose : Type 0
  pub pose_from_string : String → Option Pose
  pub x : Pose → Real
  pub y : Pose → Real
  pub yaw : Pose → Real
  pub Stamp : Type 0
  pub Content : Type 0
  -- `tf2::BufferCore`; `none` stands for a `TransformException`
  pub Buffer : Type 0
  pub empty_buffer : Buffer
  pub Transform : Type 0
  pub set_transform : Buffer → Transform → Bool → Option Buffer
  pub lookup_transform : Buffer → String → String → Option Pose
  -- messages, and their deserializers, which may throw
  pub Msg : Type 0
  pub topic_name : Msg → String
  pub transforms_of : Msg → Result (List Transform)
  pub Cloud : Type 0
  pub cloud_of : Msg → Result Cloud
  pub cloud_header : Cloud → Header Stamp
  pub extract_fields : Cloud → List String
  pub as_xyzirt : Cloud → Option Content
  pub as_xyzi : Cloud → Option Content
  pub as_xyz : Cloud → Option Content
  pub as_rotating : Cloud → Option Content
  pub Scan : Type 0
  pub scan_of : Msg → Result Scan
  pub scan_header : Scan → Header Stamp
  pub scan_content : Scan → Content
  -- `fromROS` writes into an observation that has its label and stamp already
  pub Imu : Type 0
  pub imu_of : Msg → Result Imu
  pub imu_header : Imu → Header Stamp
  pub imu_into : Imu → Observation Stamp Pose Content → Observation Stamp Pose Content
  pub Gps : Type 0
  pub gps_of : Msg → Result Gps
  pub gps_header : Gps → Header Stamp
  pub gps_into : Gps → Observation Stamp Pose Content → Observation Stamp Pose Content
  pub Odom : Type 0
  pub odom_of : Msg → Result Odom
  pub odom_header : Odom → Header Stamp
  pub odom_pose : Odom → Pose
  pub linear_x : Odom → Real
  pub linear_y : Odom → Real
  pub angular_z : Odom → Real
  pub odometry_content : Real × Real × Real → Real × Real × Real → Content
  pub Image : Type 0
  pub image_of : Msg → Result Image
  pub image_header : Image → Header Stamp
  pub image_content : Image → Result Content
  -- a serialized object of MRPT, null if there is none in the message
  pub Object : Type 0
  pub object_of : Msg → Result (Option Object)
  pub GenericObservation : Type 0
  pub as_observation : Object → Option GenericObservation
  -- `MRPT_VERSION >= 0x020b04`
  pub has_xyzirt : Bool
