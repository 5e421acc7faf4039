-- ===== src/RawlogPlay/Observations/Published.antt =====
-- Publishing one observation shows what it is to show.
use Prim.Native.String.{String}
use mrpt_navigation.Base.{
  true, false, List, [], ◌∷◌, ◌++◌, ok, ◌≡◌, refl, ap, ◌∙◌, append_assoc, is_empty,
}
use mrpt_navigation.Bridge.Sensors.{
  Bridge, BeaconRanges, BearingRange, RangeBeaconMsg, RangeBearingMsg, beacon_to_ros,
  landmark_to_ros,
}
use mrpt_navigation.RawlogPlay.Library.{
  Rosbridge, Observation, scan, beacons, landmarks, unsupported,
}
use mrpt_navigation.RawlogPlay.Observations.{
  Sent, warning, Player, or_default, send_tf_sensor_pose, publish_scan, publish_beacons,
  publish_landmarks, publish_single_observation,
}
use mrpt_navigation.RawlogPlay.Observations.Shown.{
  FillsScan, Content, ranges, beacon_ranges, bearings, beacons_content, landmarks_content, show,
  shows, sensed, shown_of, CanSend, shows-append, LandmarkFrame, Publishes,
}

module _ (bridge : Bridge) (ros : Rosbridge bridge) where
  open bridge use {TimeMsg}
  open ros use {
    Scan, scan_label, scan_pose, ScanContent, scan_content, laser_to_ros, Unsupported, Transform,
    to_transform, Pdf,
  }

  sensed-append :
      (ms : List (Sent bridge ros)) (m n : Sent bridge ros)
      → shows bridge ros ((ms ++ m ∷ []) ++ n ∷ [])
        ≡ shows bridge ros ms ++ show bridge ros m ∷ show bridge ros n ∷ []
  sensed-append ms m n =
      shows-append bridge ros (ms ++ m ∷ []) (n ∷ [])
      ∙ ap (λ l. l ++ show bridge ros n ∷ []) (shows-append bridge ros ms (m ∷ []))
      ∙ append_assoc (shows bridge ros ms) (show bridge ros m ∷ []) (show bridge ros n ∷ [])

  abbrev beacon_part : RangeBeaconMsg bridge → Content bridge ros
  beacon_part m =
      beacon_ranges m.sensor_std_range m.max_sensor_distance m.min_sensor_distance
        m.sensor_pose_on_robot m.sensed_data

  abbrev landmark_part : RangeBearingMsg bridge → Content bridge ros
  landmark_part m =
      bearings m.max_sensor_distance m.min_sensor_distance m.sensor_std_yaw m.sensor_std_pitch
        m.sensor_std_range m.sensor_pose_on_robot m.sensed_data

  beacon_to_ros-label :
      (o : BeaconRanges bridge) (m : RangeBeaconMsg bridge)
      → is_empty o.sensed_data ≡ false
      → ((beacon_to_ros bridge o m).1 ≡ ok true)
        × ((beacon_to_ros bridge o m).0.frame_id ≡ o.sensor_label)
        × (beacon_part (beacon_to_ros bridge o m).0 ≡ beacons_content bridge ros o)
  unfolding beacon_to_ros
  beacon_to_ros-label o m can = rw (can, beacon_to_ros) (refl, refl, refl)

  landmark_to_ros-label :
      (o : BearingRange bridge) (m : RangeBearingMsg bridge)
      → is_empty o.sensed_data ≡ false
      → ((landmark_to_ros bridge o m).1 ≡ ok true)
        × ((landmark_to_ros bridge o m).0.frame_id ≡ m.frame_id)
        × (landmark_part (landmark_to_ros bridge o m).0 ≡ landmarks_content bridge ros o)
  unfolding landmark_to_ros
  landmark_to_ros-label o m can = rw (can, landmark_to_ros) (refl, refl, refl)

  publish_scan-Publishes :
      (o : Scan) (s : Player bridge ros)
      → ((laser_to_ros o s.msg_laser).frame_id ≡ scan_label o)
        × ((laser_to_ros o s.msg_laser).content ≡ scan_content o)
      → LandmarkFrame bridge ros s
      → Publishes bridge ros s
          (publish_scan bridge ros o s)
          (shown_of bridge ros s.base_frame (scan o))
  unfolding publish_scan send_tf_sensor_pose
  publish_scan-Publishes o s labelled l = (
    refl,
    record {
      base = refl;
      odom = refl;
      stream = refl;
      pose = refl;
      count = refl;
      landmark_frame = l;
      adds =
          sensed-append s.sent _ _
          ∙ ap
              (λ (f : String × ScanContent).
                shows bridge ros s.sent
                ++ sensed bridge ros s.base_frame "scan" (or_default "laser_link" f.0)
                    (to_transform (scan_pose o)) (ranges f.1))
              (λ i. (labelled.0 i, labelled.1 i));
    },
  )

  publish_beacons-Publishes :
      (o : BeaconRanges bridge) (s : Player bridge ros)
      → is_empty o.sensed_data ≡ false
      → LandmarkFrame bridge ros s
      → Publishes bridge ros s
          (publish_beacons bridge ros o s)
          (shown_of bridge ros s.base_frame (beacons o))
  unfolding publish_beacons send_tf_sensor_pose
  publish_beacons-Publishes o s can l =
      let (done, label, part) = beacon_to_ros-label o s.msg_beacon can in
      rw (done, publish_beacons)
        (
          refl,
          record {
            base = refl;
            odom = refl;
            stream = refl;
            pose = refl;
            count = refl;
            landmark_frame = l;
            adds =
                sensed-append s.sent _ _
                ∙ ap
                    (λ (f : String × Content bridge ros).
                      shows bridge ros s.sent
                      ++ sensed bridge ros s.base_frame "beacon" (or_default "beacon_link" f.0)
                          (to_transform o.sensor_pose) f.1)
                    (λ i. (label i, part i));
          },
        )

  publish_landmarks-Publishes :
      (o : BearingRange bridge) (s : Player bridge ros)
      → is_empty o.sensed_data ≡ false
      → LandmarkFrame bridge ros s
      → Publishes bridge ros s
          (publish_landmarks bridge ros o s)
          (shown_of bridge ros s.base_frame (landmarks o))
  unfolding publish_landmarks send_tf_sensor_pose
  publish_landmarks-Publishes o s can l =
      let (done, label, part) = landmark_to_ros-label o s.msg_landmark can in
      let frame : or_default "landmark_link" (landmark_to_ros bridge o s.msg_landmark).0.frame_id
          ≡ "landmark_link" =
        ap (λ f. or_default "landmark_link" f) label ∙ l in
      rw (done, publish_landmarks)
        (
          refl,
          record {
            base = refl;
            odom = refl;
            stream = refl;
            pose = refl;
            count = refl;
            landmark_frame = ap (λ f. or_default "landmark_link" f) frame;
            adds =
                sensed-append s.sent _ _
                ∙ ap
                    (λ (f : String × Content bridge ros).
                      shows bridge ros s.sent
                      ++ sensed bridge ros s.base_frame "landmark" f.0 (to_transform o.sensor_pose)
                          f.1)
                    (λ i. (frame i, part i));
          },
        )

  pub publish_single_observation-Publishes :
      (labelled : FillsScan bridge ros) (o : Observation bridge ros) (s : Player bridge ros)
      → CanSend bridge ros o
      → LandmarkFrame bridge ros s
      → Publishes bridge ros s
          (publish_single_observation bridge ros o s)
          (shown_of bridge ros s.base_frame o)
  unfolding publish_single_observation
  publish_single_observation-Publishes labelled (scan o) s can l =
      publish_scan-Publishes o s (labelled o s.msg_laser) l
  publish_single_observation-Publishes labelled (beacons o) s can l =
      publish_beacons-Publishes o s can l
  publish_single_observation-Publishes labelled (landmarks o) s can l =
      publish_landmarks-Publishes o s can l
  publish_single_observation-Publishes labelled (unsupported o) s can l = (
    refl,
    record {
      base = refl;
      odom = refl;
      stream = refl;
      pose = refl;
      count = refl;
      landmark_frame = l;
      adds = shows-append bridge ros s.sent (warning o ∷ []);
    },
  )
