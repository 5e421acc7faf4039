-- ===== src/PfNode/Twist.antt =====
-- The twist that `PFLocalizationNode` estimates from its own poses, and the odometry that it makes
-- of it where the queue has none.
use mrpt_navigation.Base.{
  Option, none, some, Result, ok, err, assertion_failed, null_pointer, if◌then◌else◌,
}
use mrpt_navigation.Pf.Library.{Mrpt}
use mrpt_navigation.Pf.State.{Particles}
use mrpt_navigation.Pf.Queue.{input_queue_has_odometry, input_queue_last_stamp}
use mrpt_navigation.Pf.Api.{set_fake_odometry_increment}
use mrpt_navigation.PfNode.Library.{Ros}
use mrpt_navigation.PfNode.Node.{Twist, Node, Outcome}

module _ (mrpt : Mrpt) (ros : Ros mrpt) where
  open mrpt use {Real, ratio, times, over, Pose3, x, y, z, Stamp}
  open ros use {
    same_stamp, time_difference, less, mean_of, relative3, log_rotation, from_exp_and_translation,
  }

  pub scaled : Real × Real × Real → Real → Real × Real × Real
  scaled a dt = (times a.0 dt, times a.1 dt, times a.2 dt)

  unfoldable pub fake_odometry :
      Twist mrpt ros → Stamp → Result (Option Stamp) → Node mrpt ros → Outcome mrpt ros
  unfolding scaled
  fake_odometry tw prev (err e) n = (n, err e)
  fake_odometry tw prev (ok none) n = (n, ok tt)
  fake_odometry tw prev (ok (some last)) n =
      let dt = time_difference prev last in
      (
        record n {
          core =
              set_fake_odometry_increment mrpt
                (from_exp_and_translation (scaled tw.w dt) (scaled tw.v dt)) n.core;
        },
        ok tt,
      )

  -- The rest of `createOdometryFromTwist`, on the two members that it tests first.
  unfoldable pub twist_odometry :
      Option (Twist mrpt ros) → Option Stamp → Node mrpt ros → Outcome mrpt ros
  unfolding fake_odometry
  twist_odometry none prev n = (n, ok tt)
  twist_odometry (some tw) none n = (n, ok tt)
  twist_odometry (some tw) (some prev) n =
      if input_queue_has_odometry mrpt n.core
      then (n, ok tt)
      else fake_odometry tw prev (input_queue_last_stamp mrpt n.core) n

  unfoldable pub create_odometry_from_twist : Node mrpt ros → Outcome mrpt ros
  unfolding twist_odometry
  create_odometry_from_twist n = twist_odometry n.estimated_twist n.prev_stamp n

  pub twist_between : Pose3 → Real → Twist mrpt ros
  twist_between inc dt =
      let w = log_rotation inc in
      record {
        v = (over (x inc) dt, over (y inc) dt, over (z inc) dt);
        w = (over w.0 dt, over w.1 dt, over w.2 dt);
      }

  -- `prevParts_` and `prevStamp_` for the next iteration
  unfoldable pub remember : Particles mrpt Pose3 → Stamp → Node mrpt ros → Node mrpt ros
  remember parts stamp n = record n { prev_parts = some parts; prev_stamp = some stamp }

  -- With two estimates: the twist between them if they are less than 5 s apart. Dereferencing an
  -- empty `prevStamp_` is a null pointer.
  unfoldable pub twist_step :
      Particles mrpt Pose3
      → Stamp
      → Particles mrpt Pose3
      → Option Stamp
      → Node mrpt ros
      → Outcome mrpt ros
  unfolding remember twist_between
  twist_step parts cur prev none n = (n, err null_pointer)
  twist_step parts cur prev (some stamp) n =
      if same_stamp cur stamp
      then (n, ok tt)
      else (let dt = time_difference stamp cur in
          let moved = record n {
            estimated_twist = some (twist_between (relative3 (mean_of parts) (mean_of prev)) dt);
          } in
          if less dt (ratio 5 1)
          then (if less (ratio 0 1) dt
              then (remember parts cur moved, ok tt)
              else (n, err assertion_failed))
          else (remember parts cur n, ok tt))

  -- `updateEstimatedTwist` on the estimate, the last stamp and the previous estimate.
  unfoldable pub compare_estimates :
      Option (Particles mrpt Pose3)
      → Option Stamp
      → Option (Particles mrpt Pose3)
      → Node mrpt ros
      → Outcome mrpt ros
  unfolding twist_step remember
  compare_estimates none cur prev n = (n, ok tt)
  compare_estimates (some parts) none prev n = (n, ok tt)
  compare_estimates (some parts) (some cur) none n = (remember parts cur n, ok tt)
  compare_estimates (some parts) (some cur) (some prev) n = twist_step parts cur prev n.prev_stamp n

  unfoldable pub update_estimated_twist : Node mrpt ros → Outcome mrpt ros
  unfolding compare_estimates
  update_estimated_twist n =
      compare_estimates n.core.state.last_result n.last_sensor_stamp n.prev_parts n
