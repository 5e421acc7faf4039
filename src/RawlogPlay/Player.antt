-- ===== src/RawlogPlay/Player.antt =====
-- `RawlogPlayNode::nextEntry`.
pub mod Played
use mrpt_navigation.Base.{
  suc, Bool, true, false, List, [], ◌∷◌, ◌++◌, Result, ok, err, null_pointer, if◌then◌else◌,
  same_text,
}
use mrpt_navigation.Bridge.Sensors.{Bridge}
use mrpt_navigation.RawlogPlay.Library.{Rosbridge, Observation, pair, alone}
use mrpt_navigation.RawlogPlay.Observations.{
  Odometry, tf, Player, Outcome, publish_single_observation,
}

module _ (bridge : Bridge) (ros : Rosbridge bridge) where
  open bridge use {TimeMsg}
  open ros use {to_transform, inverse, minus, mean, to_pdf_msg, Action, movement, now, soon}

  -- What follows, unless an exception has left the function.
  and_then : Outcome bridge ros → (Player bridge ros → Outcome bridge ros) → Outcome bridge ros
  and_then (s, err e) f = (s, err e)
  and_then (s, ok _) f = f s

  -- `for (const auto& o : *observations)`
  pub publish_all : List (Observation bridge ros) → Player bridge ros → Outcome bridge ros
  unfolding and_then
  publish_all [] s = (s, ok tt)
  publish_all (o ∷ os) s = and_then (publish_single_observation bridge ros o s) (publish_all os)

  -- The stamp of the first message whose frame is set, laser first.
  latest_stamp : Player bridge ros → TimeMsg
  latest_stamp s =
      if same_text s.msg_laser.frame_id ""
      then (if same_text s.msg_beacon.frame_id ""
          then (if same_text s.msg_landmark.frame_id ""
              then s.msg_odom.stamp
              else s.msg_landmark.stamp)
          else s.msg_beacon.stamp)
      else s.msg_laser.stamp

  -- The robot's pose after an action, and its transform.
  pub move : Action → Player bridge ros → Player bridge ros
  unfolding latest_stamp
  move a s =
      let pose = minus s.robot_pose (movement a) in
      let msg : Odometry bridge ros = record {
        frame_id = s.odom_frame;
        child_frame_id = s.base_frame;
        stamp = latest_stamp s;
        pose = to_pdf_msg pose;
      } in
      let time = now s.clock_reads in
      record s {
        robot_pose = pose;
        msg_odom = record msg { stamp = time };
        clock_reads = suc s.clock_reads;
        sent =
            s.sent
            ++ tf (record {
              stamp = soon time;
              frame_id = s.base_frame;
              child_frame_id = s.odom_frame;
              transform = inverse (to_transform (mean pose));
            })
              ∷ [];
      }

  -- Whether it was the end of the stream. After an observation alone, `*observations` is the
  -- dereference of a null pointer.
  pub next_entry : Player bridge ros → Player bridge ros × Result Bool
  unfolding publish_all move
  next_entry s = elim s.rawlog_stream [
    | [] ↦ (s, ok true)
    | pair a os ∷ rest ↦
        let (s', r) = publish_all os (record s { rawlog_stream = rest }) in
        elim r [ err e ↦ (s', err e) | ok _ ↦ (move a s', ok false) ]
    | alone o ∷ rest ↦
        let (s', r) = publish_single_observation bridge ros o (record s { rawlog_stream = rest }) in
        elim r [ err e ↦ (s', err e) | ok _ ↦ (s', err null_pointer) ]
  ]
