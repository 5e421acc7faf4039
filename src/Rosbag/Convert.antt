-- ===== src/Rosbag/Convert.antt =====
-- The conversions of rosbag2rawlog.cpp from a serialized message to observations.
use Prim.Native.String.{String}
use mrpt_navigation.Base.{
  Bool, false, not, ◌&&◌, ◌||◌, Option, none, some, List, [], ◌∷◌, Result, ok, ◌>>=◌, or_throw,
  assertion_failed, conversion_failed, if◌then◌else◌, same_text,
}
use mrpt_navigation.Rosbag.Library.{
  Bag, Header, Observation, ObservationClass, image, point_cloud, range_scan, rotating_scan, imu,
  gps, odometry,
}

-- `fields.count(name)`
abbrev pub has_field : String → List String → Bool
has_field name [] = false
has_field name (f ∷ fs) = same_text name f || has_field name fs

module _ (bag : Bag) (base_link : String) where
  open bag use {
    Pose, x, y, yaw, Stamp, Content, Buffer, set_transform, Transform, lookup_transform, Msg,
    transforms_of, Cloud, cloud_of, cloud_header, extract_fields, as_xyzirt, as_xyzi, as_xyz,
    as_rotating, scan_of, scan_header, scan_content, imu_of, imu_header, imu_into, gps_of,
    gps_header, gps_into, odom_of, odom_header, odom_pose, linear_x, linear_y, angular_z,
    odometry_content, image_of, image_header, image_content, object_of, GenericObservation,
    as_observation, has_xyzirt,
  }

  -- What goes into the rawlog.
  pub data Entry : Type 0 where
    observation : Observation Stamp Pose Content → Entry
    generic : GenericObservation → Entry

  abbrev pub Obs : Type 0
  Obs = List Entry

  -- The buffer is there from the start of the `Transcriber`.
  unfoldable pub find_out_sensor_pose : Buffer → String → Option Pose → Option Pose
  find_out_sensor_pose tf frame (some fixed) = some fixed
  find_out_sensor_pose tf frame none = lookup_transform tf base_link frame

  -- Without a sensor pose the observation is dropped.
  unfoldable pub placed : Buffer → String → Option Pose → Observation Stamp Pose Content → Obs
  unfolding find_out_sensor_pose
  placed tf frame fixed o = elim (find_out_sensor_pose tf frame fixed) [
    | none ↦ []
    | some pose ↦ observation (record o { pose = some pose }) ∷ []
  ]

  abbrev pub created : ObservationClass → String → Header Stamp → Observation Stamp Pose Content
  created kind label h = record {
    kind = kind;
    label = label;
    stamp = h.stamp;
    pose = none;
    content = none;
  }

  abbrev pub filled :
      ObservationClass → String → Header Stamp → Content → Observation Stamp Pose Content
  filled kind label h c = record (created kind label h) { content = some c }

  has_xyz : List String → Bool
  has_xyz fields = has_field "x" fields && has_field "y" fields && has_field "z" fields

  cloud_entry : String → Pose → Cloud → Content → Obs
  cloud_entry label pose pts c =
      observation (record (filled point_cloud label (cloud_header pts) c) { pose = some pose }) ∷ []

  xyz_entry : String → Pose → Cloud → Result Obs
  unfolding cloud_entry
  xyz_entry label pose pts =
      or_throw (as_xyz pts) conversion_failed >>= λ c. ok (cloud_entry label pose pts c)

  -- The richest class of points that the fields allow.
  unfoldable pub convert_points : String → Pose → Cloud → Result Obs
  unfolding has_xyz cloud_entry xyz_entry
  convert_points label pose pts =
      let fields = extract_fields pts in
      if not (has_xyz fields)
      then ok []
      else if has_xyzirt && (has_field "ring" fields || has_field "time" fields)
      then (or_throw (as_xyzirt pts) conversion_failed >>= λ c. ok (cloud_entry label pose pts c))
      else if has_field "intensity" fields
      then elim (as_xyzi pts) [
        | some c ↦ ok (cloud_entry label pose pts c)
        | none ↦ xyz_entry label pose pts
      ]
      else xyz_entry label pose pts

  unfoldable pub to_point_cloud2 : String → Option Pose → Buffer → Msg → Result Obs
  unfolding find_out_sensor_pose convert_points
  to_point_cloud2 label fixed tf msg = cloud_of msg >>= λ pts.
      elim (find_out_sensor_pose tf (cloud_header pts).frame fixed) [
        | none ↦ ok []
        | some pose ↦ convert_points label pose pts
      ]

  unfoldable pub to_lidar_2d : String → Option Pose → Buffer → Msg → Result Obs
  unfolding placed
  to_lidar_2d label fixed tf msg = scan_of msg >>= λ scan.
      let h = scan_header scan in
      ok (placed tf h.frame fixed (filled range_scan label h (scan_content scan)))

  unfoldable pub to_rotating_scan : String → Option Pose → Buffer → Msg → Result Obs
  unfolding placed has_xyz
  to_rotating_scan label fixed tf msg = cloud_of msg >>= λ pts.
      let fields = extract_fields pts in
      let h = cloud_header pts in
      if has_xyz fields && has_field "ring" fields
      then (or_throw (as_rotating pts) conversion_failed >>= λ c.
          ok (placed tf h.frame fixed (filled rotating_scan label h c)))
      else ok []

  unfoldable pub to_imu : String → Option Pose → Buffer → Msg → Result Obs
  unfolding placed
  to_imu label fixed tf msg = imu_of msg >>= λ m.
      let h = imu_header m in ok (placed tf h.frame fixed (imu_into m (created imu label h)))

  -- Whether the fix could be converted is not looked at.
  unfoldable pub to_gps : String → Option Pose → Buffer → Msg → Result Obs
  unfolding placed
  to_gps label fixed tf msg = gps_of msg >>= λ m.
      let h = gps_header m in ok (placed tf h.frame fixed (gps_into m (created gps label h)))

  unfoldable pub to_odometry : String → Msg → Result Obs
  to_odometry label msg = odom_of msg >>= λ m.
      let p = odom_pose m in
      ok (
        observation (
          filled odometry label (odom_header m)
            (odometry_content (x p, y p, yaw p) (linear_x m, linear_y m, angular_z m)))
        ∷ [])

  unfoldable pub to_image : String → Option Pose → Buffer → Msg → Result Obs
  unfolding placed
  to_image label fixed tf msg = image_of msg >>= λ m. image_content m >>= λ c.
      let h = image_header m in ok (placed tf h.frame fixed (filled image label h c))

  unfoldable pub from_generic_mrpt_observation : Msg → Result Obs
  from_generic_mrpt_observation msg = object_of msg >>= λ obj.
      or_throw obj assertion_failed >>= λ o.
      or_throw (as_observation o) assertion_failed >>= λ g. ok (generic g ∷ [])

  -- A transform that tf2 refuses is skipped.
  pub set_transforms : Bool → List Transform → Buffer → Buffer
  set_transforms is_static [] tf = tf
  set_transforms is_static (t ∷ ts) tf = elim (set_transform tf t is_static) [
    | none ↦ set_transforms is_static ts tf
    | some tf' ↦ set_transforms is_static ts tf'
  ]

  unfoldable pub to_tf : Bool → Buffer → Msg → Result Buffer
  unfolding set_transforms
  to_tf is_static tf msg = transforms_of msg >>= λ ts. ok (set_transforms is_static ts tf)
