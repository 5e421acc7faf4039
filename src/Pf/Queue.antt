-- ===== src/Pf/Queue.antt =====
-- The observation queue of `PFLocalizationCore`: `on_observation`, `input_queue_has_odometry`,
-- `input_queue_last_stamp`, and the loop of `onStateRunning` that empties the queue.
pub mod Latest
pub mod Stamps
pub mod Conflicts
use mrpt_navigation.Base.{
  Bool, false, Option, none, some, List, [], ◌∷◌, ◌++◌, map, Result, ok, err, class_conflict,
  assertion_failed, if◌then◌else◌, has_value, ◌||◌,
}
use mrpt_navigation.Base.StdMap.{Key, find, assign}
use mrpt_navigation.Pf.Library.{Mrpt}
use mrpt_navigation.Pf.State.{Core}

module _ (mrpt : Mrpt) where
  open mrpt use {
    Label, label_key, ClassName, class_key, Stamp, earlier, Obs, sensor_label, class_name,
    timestamp, as_odometry, has_gga,
  }

  instance abbrev label_order : Key Label
  label_order = label_key

  is_gga : Option Obs → Bool
  is_gga none = false
  is_gga (some o) = has_gga o

  -- A null pointer is queued as well.
  unfoldable pub on_observation : Core mrpt → Option Obs → Core mrpt
  unfolding is_gga
  on_observation c obs = record c {
    state = record (c.state) { pending_obs = c.state.pending_obs ++ obs ∷ [] };
    last_gnss = if is_gga obs then obs else c.last_gnss;
  }

  any_odometry : List (Option Obs) → Bool
  any_odometry [] = false
  any_odometry (none ∷ os) = any_odometry os
  any_odometry (some o ∷ os) = has_value (as_odometry o) || any_odometry os

  pub input_queue_has_odometry : Core mrpt → Bool
  unfolding any_odometry
  input_queue_has_odometry c = any_odometry c.state.pending_obs

  -- `mrpt::keep_min`
  keep_min : Stamp → Stamp → Stamp
  keep_min old t = if earlier t old then t else old

  stamp_loop : List (Option Obs) → Option Stamp → Result (Option Stamp)
  unfolding keep_min
  stamp_loop [] last = ok last
  stamp_loop (none ∷ os) last = err assertion_failed
  stamp_loop (some o ∷ os) none = stamp_loop os (some (timestamp o))
  stamp_loop (some o ∷ os) (some last) = stamp_loop os (some (keep_min last (timestamp o)))

  pub input_queue_last_stamp : Core mrpt → Result (Option Stamp)
  unfolding stamp_loop
  input_queue_last_stamp c = stamp_loop c.state.pending_obs none

  -- What the loop knows: the last observation and the class of each label, and the last time stamp.
  pub record Collected : Type 0 where
    pub obs_by_label : List (Label × Obs)
    pub class_by_label : List (Label × ClassName)
    pub last_stamp : Option Stamp

  abbrev pub nothing_collected : Collected
  nothing_collected = record { obs_by_label = []; class_by_label = []; last_stamp = none }

  unfoldable pub collect_one : Obs → Collected → Result Collected
  collect_one o w = elim (find (sensor_label o) w.class_by_label) [
    | none ↦ ok (record {
      obs_by_label = assign (sensor_label o) o w.obs_by_label;
      class_by_label = assign (sensor_label o) (class_name o) w.class_by_label;
      last_stamp = some (timestamp o);
    })
    | some seen ↦
        if class_key.beq seen (class_name o)
        then ok (record w {
          obs_by_label = assign (sensor_label o) o w.obs_by_label;
          last_stamp = some (timestamp o);
        })
        else err class_conflict
  ]

  unfoldable pub collect : List (Option Obs) → Collected → Result Collected
  collect [] w = ok w
  collect (none ∷ os) w = collect os w
  collect (some o ∷ os) w = elim (collect_one o w) [ ok w' ↦ collect os w' | err e ↦ err e ]

  -- The sensory frame: the last observation of each label, in the order of the labels.
  pub sensory_frame : Collected → List Obs
  sensory_frame w = map (λ p. p.1) w.obs_by_label
