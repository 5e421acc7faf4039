-- ===== src/Bridge/Sensors/RoundTrip.antt =====
-- What survives a trip through a message.
use mrpt_navigation.Base.{
  true, false, List, [], ◌∷◌, map, ok, err, assertion_failed, ◌≡◌, ◌≢◌, refl, ap, ◌∙◌, arith,
  is_empty, if◌then◌else◌,
}
use mrpt_navigation.Bridge.Sensors.{
  Bridge, BeaconRange, BeaconRanges, RangeBeaconMsg, beacons_over, beacon_msg, beacon_from_ros,
  beacon_to_ros, chosen_pose, Bearing, BearingRange, RangeBearingMsg, bearing_of, bearing_msg,
  landmark_from_ros, landmark_to_ros,
}

module _ (bridge : Bridge) where
  open bridge use {
    Pose, is_empty_pose, to_pose_msg, of_pose_msg, Time, to_time_msg, of_time_msg, no_coords,
  }

  bearings-back :
      (rs : List (Bearing bridge)) → map (bearing_of bridge) (map (bearing_msg bridge) rs) ≡ rs
  unfolding bearing_of bearing_msg
  bearings-back [] = refl
  bearings-back (r ∷ rs) = ap (λ l. r ∷ l) (bearings-back rs)

  -- The measurements of beacons with the sensor location that a new one has.
  abbrev pub relocated : List (BeaconRange bridge) → List (BeaconRange bridge)
  relocated [] = []
  relocated (r ∷ rs) = record r { sensor_location = no_coords } ∷ relocated rs

  beacons-back :
      (rs : List (BeaconRange bridge))
      → beacons_over bridge (map (beacon_msg bridge) rs) [] ≡ relocated rs
  unfolding beacons_over beacon_msg
  beacons-back [] = refl
  beacons-back (r ∷ rs) = ap (λ l. record r { sensor_location = no_coords } ∷ l) (beacons-back rs)

  is_empty-map : {A B : Type 0} (f : A → B) (l : List A) → is_empty (map f l) ≡ is_empty l
  is_empty-map f [] = refl
  is_empty-map f (x ∷ l) = refl

  is_empty_of : {A : Type 0} (l : List A) → l ≢ [] → is_empty l ≡ false
  is_empty_of [] h = absurd (h refl)
  is_empty_of (x ∷ l) h = refl

  landmark_from_ros-full :
      (msg : RangeBearingMsg bridge) (pose : Pose) (obj : BearingRange bridge)
      → is_empty msg.sensed_data ≡ false
      → landmark_from_ros bridge msg pose obj ≡ (
        record {
          timestamp = of_time_msg msg.stamp;
          sensor_label = obj.sensor_label;
          max_sensor_distance = msg.max_sensor_distance;
          min_sensor_distance = msg.min_sensor_distance;
          sensor_std_yaw = msg.sensor_std_yaw;
          sensor_std_pitch = msg.sensor_std_pitch;
          sensor_std_range = msg.sensor_std_range;
          sensor_pose = chosen_pose bridge pose msg.sensor_pose_on_robot;
          sensed_data = map (bearing_of bridge) msg.sensed_data;
        },
        ok true,
      )
  unfolding landmark_from_ros
  landmark_from_ros-full msg pose obj h = ground arith

  landmark_to_ros-full :
      (obj : BearingRange bridge) (msg : RangeBearingMsg bridge)
      → is_empty obj.sensed_data ≡ false
      → landmark_to_ros bridge obj msg ≡ (
        record {
          stamp = to_time_msg obj.timestamp;
          frame_id = msg.frame_id;
          max_sensor_distance = obj.max_sensor_distance;
          min_sensor_distance = obj.min_sensor_distance;
          sensor_std_yaw = obj.sensor_std_yaw;
          sensor_std_pitch = obj.sensor_std_pitch;
          sensor_std_range = obj.sensor_std_range;
          sensor_pose_on_robot = to_pose_msg obj.sensor_pose;
          sensed_data = map (bearing_msg bridge) obj.sensed_data;
        },
        ok true,
      )
  unfolding landmark_to_ros
  landmark_to_ros-full obj msg h = ground arith

  landmark_to_ros-empty :
      (obj : BearingRange bridge) (msg : RangeBearingMsg bridge)
      → is_empty obj.sensed_data ≡ true
      → (landmark_to_ros bridge obj msg).1 ≡ err assertion_failed
  unfolding landmark_to_ros
  landmark_to_ros-empty obj msg h = ground arith

  beacon_from_ros-full :
      (msg : RangeBeaconMsg bridge) (pose : Pose) (obj : BeaconRanges bridge)
      → is_empty msg.sensed_data ≡ false
      → beacon_from_ros bridge msg pose obj ≡ (
        record {
          timestamp = of_time_msg msg.stamp;
          sensor_label = msg.frame_id;
          std_error = msg.sensor_std_range;
          max_sensor_distance = msg.max_sensor_distance;
          min_sensor_distance = msg.min_sensor_distance;
          sensor_pose = chosen_pose bridge pose msg.sensor_pose_on_robot;
          sensed_data = beacons_over bridge msg.sensed_data obj.sensed_data;
        },
        ok true,
      )
  unfolding beacon_from_ros
  beacon_from_ros-full msg pose obj h = ground arith

  beacon_to_ros-full :
      (obj : BeaconRanges bridge) (msg : RangeBeaconMsg bridge)
      → is_empty obj.sensed_data ≡ false
      → beacon_to_ros bridge obj msg ≡ (
        record {
          stamp = to_time_msg obj.timestamp;
          frame_id = obj.sensor_label;
          sensor_std_range = obj.std_error;
          max_sensor_distance = obj.max_sensor_distance;
          min_sensor_distance = obj.min_sensor_distance;
          sensor_pose_on_robot = to_pose_msg obj.sensor_pose;
          sensed_data = map (beacon_msg bridge) obj.sensed_data;
        },
        ok true,
      )
  unfolding beacon_to_ros
  beacon_to_ros-full obj msg h = ground arith

  beacon_to_ros-empty :
      (obj : BeaconRanges bridge) (msg : RangeBeaconMsg bridge)
      → is_empty obj.sensed_data ≡ true
      → (beacon_to_ros bridge obj msg).1 ≡ err assertion_failed
  unfolding beacon_to_ros
  beacon_to_ros-empty obj msg h = ground arith

  module _ (pose_back : (p : Pose) → of_pose_msg (to_pose_msg p) ≡ p)
      (time_back : (t : Time) → of_time_msg (to_time_msg t) ≡ t) where
    pose_arrives :
        (pose q : Pose)
        → chosen_pose bridge pose (to_pose_msg q) ≡ (if is_empty_pose pose then q else pose)
    unfolding chosen_pose
    pose_arrives pose q = ap (λ p. if is_empty_pose pose then p else pose) (pose_back q)

    -- A landmark observation with measurements comes back from its message but for two fields: its
    -- label stays the one of the object that is written to, and its sensor pose is the one that the
    -- caller gives, or its own where the given one is empty. One without measurements throws when it
    -- is written.
    pub landmark_from_ros-to_ros :
        (obj old : BearingRange bridge) (msg : RangeBearingMsg bridge) (pose : Pose)
        → (is_empty obj.sensed_data ≡ false
            → landmark_from_ros bridge (landmark_to_ros bridge obj msg).0 pose old ≡ (
              record obj {
                sensor_label = old.sensor_label;
                sensor_pose = if is_empty_pose pose then obj.sensor_pose else pose;
              },
              ok true,
            ))
          × (is_empty obj.sensed_data ≡ true
              → (landmark_to_ros bridge obj msg).1 ≡ err assertion_failed)
    landmark_from_ros-to_ros obj old msg pose = (
      λ h. rw (landmark_to_ros-full obj msg h) (
          landmark_from_ros-full _ pose old (is_empty-map (bearing_msg bridge) obj.sensed_data ∙ h)
          ∙ λ i. (
            record obj {
              sensor_label = old.sensor_label;
              timestamp = time_back obj.timestamp i;
              sensor_pose = pose_arrives pose obj.sensor_pose i;
              sensed_data = bearings-back obj.sensed_data i;
            },
            ok true,
          )),
      landmark_to_ros-empty obj msg,
    )

    -- A beacon observation with measurements comes back from its message with its label, when the
    -- object that is written to has no measurements; the sensor location of each measurement is lost,
    -- and the sensor pose is the one that the caller gives, or its own where the given one is empty.
    -- One without measurements throws when it is written.
    pub beacon_from_ros-to_ros :
        (obj old : BeaconRanges bridge) (msg : RangeBeaconMsg bridge) (pose : Pose)
        → old.sensed_data ≡ []
        → (is_empty obj.sensed_data ≡ false
            → beacon_from_ros bridge (beacon_to_ros bridge obj msg).0 pose old ≡ (
              record obj {
                sensed_data = relocated obj.sensed_data;
                sensor_pose = if is_empty_pose pose then obj.sensor_pose else pose;
              },
              ok true,
            ))
          × (is_empty obj.sensed_data ≡ true
              → (beacon_to_ros bridge obj msg).1 ≡ err assertion_failed)
    beacon_from_ros-to_ros obj old msg pose fresh = (
      λ h. rw (beacon_to_ros-full obj msg h) (
          beacon_from_ros-full _ pose old (is_empty-map (beacon_msg bridge) obj.sensed_data ∙ h)
          ∙ λ i. (
            record obj {
              timestamp = time_back obj.timestamp i;
              sensor_pose = pose_arrives pose obj.sensor_pose i;
              sensed_data =
                  (ap (beacons_over bridge (map (beacon_msg bridge) obj.sensed_data)) fresh
                      ∙ beacons-back obj.sensed_data)
                    i;
            },
            ok true,
          )),
      beacon_to_ros-empty obj msg,
    )
