-- ===== src/PfNode/Loop/Calls.antt =====
-- Which calls of the core's API the callbacks of `PFLocalizationNode` make.
use mrpt_navigation.Base.{
  Bool, true, false, Option, none, some, List, [], ◌∷◌, Result, ok, err, ◌≡◌, refl, ◌∙◌, ◌++◌, ap,
  arith, map, Bool-cases, inl, inr,
}
use mrpt_navigation.Pf.Library.{Mrpt}
use mrpt_navigation.Pf.State.{Core, Engine, Particles}
use mrpt_navigation.Pf.Queue.{input_queue_has_odometry, input_queue_last_stamp}
use mrpt_navigation.Pf.Api.{
  Call, observes, steps, relocalizes, sets_map, sets_fake_odometry, after, after_all,
  set_map_from_layers,
}
use mrpt_navigation.PfNode.Library.{Ros}
use mrpt_navigation.PfNode.Node.{
  Node, Outcome, Twist, observe, observe_fix, callback_laser, callback_point_cloud,
  callback_odometry, callback_gnss, callback_initialpose, callback_map, receive_map,
}
use mrpt_navigation.PfNode.Twist.{
  scaled, fake_odometry, create_odometry_from_twist, remember, twist_step, twist_odometry,
  compare_estimates, update_estimated_twist,
}
use mrpt_navigation.PfNode.Publish.{publish_particles, update_tf_pub_data, publish_tf}
use mrpt_navigation.PfNode.Loop.{
  Event, laser, point_cloud, odometry, gnss, initialpose, map_received, loop_timer, tf_timer,
  and_then, core_step, finish, loop, on_event, on_events,
}

module _ (mrpt : Mrpt) (engine : Engine mrpt) (ros : Ros mrpt) where
  open mrpt use {Pose3, Stamp, Obs, Label, Layer, Geo}
  open ros use {
    map_of, obs_of_fix, obs_of_scan, obs_of_cloud, obs_of_odometry, gaussian_of,
    from_exp_and_translation, time_difference,
  }

  -- One round of the timer. With a twist and the stamp of its estimate, and no odometry in the
  -- queue, the increment since then comes before the step; a null observation in the queue ends the
  -- round before it.
  abbrev pub round_calls :
      Option (Twist mrpt ros) → Option Stamp → Bool → Result (Option Stamp) → List (Call mrpt)
  round_calls none prev queued last = steps ∷ []
  round_calls (some tw) none queued last = steps ∷ []
  round_calls (some tw) (some prev) true last = steps ∷ []
  round_calls (some tw) (some prev) false (err e) = []
  round_calls (some tw) (some prev) false (ok none) = steps ∷ []
  round_calls (some tw) (some prev) false (ok (some last)) =
      let dt = time_difference prev last in
      sets_fake_odometry
        (from_exp_and_translation (scaled mrpt ros tw.w dt) (scaled mrpt ros tw.v dt))
      ∷ steps
      ∷ []

  abbrev pub fix_calls : Option Obs → List (Call mrpt)
  fix_calls none = []
  fix_calls (some o) = observes (some o) ∷ []

  abbrev pub map_calls : Option (List (Label × Option Layer) × Option Geo) → List (Call mrpt)
  map_calls none = []
  map_calls (some (layers, geo)) =
      sets_map (record { maps = map (λ p. p.1) layers }) geo (map (λ p. p.0) layers) ∷ []

  -- The calls that an event asks for: a sensor's message is one observation, if tf knows the sensor.
  abbrev pub calls_of : Event mrpt engine ros → Node mrpt ros → List (Call mrpt)
  calls_of (laser msg topic none) n = []
  calls_of (laser msg topic (some sensor)) n = observes (some (obs_of_scan msg sensor topic)) ∷ []
  calls_of (point_cloud msg topic now none) n = []
  calls_of (point_cloud msg topic now (some sensor)) n =
      observes (some (obs_of_cloud msg topic now)) ∷ []
  calls_of (odometry msg) n = observes (some (obs_of_odometry msg)) ∷ []
  calls_of (gnss msg none) n = []
  calls_of (gnss msg (some sensor)) n = fix_calls (obs_of_fix msg)
  calls_of (initialpose msg) n = relocalizes (gaussian_of msg) ∷ []
  calls_of (map_received obj) n = map_calls (map_of obj)
  calls_of (loop_timer h g t) n =
      round_calls n.estimated_twist n.prev_stamp (input_queue_has_odometry mrpt n.core)
        (input_queue_last_stamp mrpt n.core)
  calls_of tf_timer n = []

  abbrev pub calls_of_all : List (Event mrpt engine ros) → Node mrpt ros → List (Call mrpt)
  calls_of_all [] n = []
  calls_of_all (e ∷ es) n = calls_of e n ++ calls_of_all es (on_event mrpt engine ros e n).0

  twist_step-core :
      (parts : Particles mrpt Pose3) (cur : Stamp) (prev : Particles mrpt Pose3)
      (stamp : Option Stamp) (n : Node mrpt ros)
      → (twist_step mrpt ros parts cur prev stamp n).0.core ≡ n.core
  unfolding twist_step remember
  twist_step-core parts cur prev none n = refl
  twist_step-core parts cur prev (some stamp) n = ground arith

  compare_estimates-core :
      (parts : Option (Particles mrpt Pose3)) (cur : Option Stamp)
      (prev : Option (Particles mrpt Pose3)) (n : Node mrpt ros)
      → (compare_estimates mrpt ros parts cur prev n).0.core ≡ n.core
  unfolding compare_estimates remember
  compare_estimates-core none cur prev n = refl
  compare_estimates-core (some parts) none prev n = refl
  compare_estimates-core (some parts) (some cur) none n = refl
  compare_estimates-core (some parts) (some cur) (some prev) n =
      twist_step-core parts cur prev n.prev_stamp n

  update_estimated_twist-core :
      (n : Node mrpt ros) → (update_estimated_twist mrpt ros n).0.core ≡ n.core
  unfolding update_estimated_twist
  update_estimated_twist-core n =
      compare_estimates-core n.core.state.last_result n.last_sensor_stamp n.prev_parts n

  finish-core :
      (h g : Bool) (t : Option Pose3) (n : Node mrpt ros)
      → (finish mrpt engine ros h g t n).0.core ≡ n.core
  unfolding finish publish_particles update_tf_pub_data
  finish-core h g t n = ground arith

  publish_tf-core : (n : Node mrpt ros) → (publish_tf mrpt ros n).0.core ≡ n.core
  unfolding publish_tf
  publish_tf-core n = ground arith

  after_all-append :
      (first rest : List (Call mrpt)) (c : Core mrpt)
      → after_all mrpt engine rest (after_all mrpt engine first c)
        ≡ after_all mrpt engine (first ++ rest) c
  unfolding after_all
  after_all-append [] rest c = refl
  after_all-append (call ∷ first) rest c = after_all-append first rest _

  and_then-core :
      (o : Outcome mrpt ros) (f : Node mrpt ros → Outcome mrpt ros)
      → ((n : Node mrpt ros) → (f n).0.core ≡ n.core)
      → (and_then mrpt engine ros o f).0.core ≡ o.0.core
  unfolding and_then
  and_then-core (n, err e) f same = refl
  and_then-core (n, ok _) f same = same n

  fake_odometry-round :
      (tw : Twist mrpt ros) (prev : Stamp) (last : Result (Option Stamp)) (n : Node mrpt ros)
      → (and_then mrpt engine ros
          (fake_odometry mrpt ros tw prev last n)
          (core_step mrpt engine ros)).0.core
        ≡ after_all mrpt engine (round_calls (some tw) (some prev) false last) n.core
  unfolding fake_odometry and_then core_step after after_all
  fake_odometry-round tw prev (err e) n = refl
  fake_odometry-round tw prev (ok none) n = refl
  fake_odometry-round tw prev (ok (some last)) n = refl

  twist_odometry-round :
      (tw : Option (Twist mrpt ros)) (prev : Option Stamp) (n : Node mrpt ros)
      → (and_then mrpt engine ros
          (twist_odometry mrpt ros tw prev n)
          (core_step mrpt engine ros)).0.core
        ≡ after_all mrpt engine
            (round_calls tw prev
              (input_queue_has_odometry mrpt n.core)
              (input_queue_last_stamp mrpt n.core))
            n.core
  unfolding twist_odometry and_then core_step after after_all
  twist_odometry-round none prev n = refl
  twist_odometry-round (some tw) none n = refl
  twist_odometry-round (some tw) (some prev) n =
      elim (Bool-cases (input_queue_has_odometry mrpt n.core)) [
        | inl queued ↦ rw (queued, twist_odometry) refl
        | inr free ↦
            rw (free, twist_odometry)
              (fake_odometry-round tw prev (input_queue_last_stamp mrpt n.core) n)
      ]

  loop-round :
      (h g : Bool) (t : Option Pose3) (n : Node mrpt ros)
      → (loop mrpt engine ros h g t n).0.core
        ≡ after_all mrpt engine (calls_of (loop_timer h g t) n) n.core
  unfolding loop create_odometry_from_twist
  loop-round h g t n =
      and_then-core _ (finish mrpt engine ros h g t) (finish-core h g t)
      ∙ and_then-core _ (update_estimated_twist mrpt ros) update_estimated_twist-core
      ∙ twist_odometry-round n.estimated_twist n.prev_stamp n

  receive_map-calls :
      (found : Option (List (Label × Option Layer) × Option Geo)) (n : Node mrpt ros)
      → (receive_map mrpt ros found n).0.core ≡ after_all mrpt engine (map_calls found) n.core
  unfolding receive_map set_map_from_layers after after_all
  receive_map-calls none n = refl
  receive_map-calls (some (layers, geo)) n = refl

  observe_fix-calls :
      (o : Option Obs) (n : Node mrpt ros)
      → (observe_fix mrpt ros o n).core ≡ after_all mrpt engine (fix_calls o) n.core
  unfolding observe_fix after after_all
  observe_fix-calls none n = refl
  observe_fix-calls (some o) n = refl

  on_event-calls :
      (e : Event mrpt engine ros) (n : Node mrpt ros)
      → (on_event mrpt engine ros e n).0.core ≡ after_all mrpt engine (calls_of e n) n.core
  unfolding on_event callback_laser callback_point_cloud callback_odometry observe callback_gnss
      callback_initialpose callback_map after after_all
  on_event-calls (laser msg topic none) n = refl
  on_event-calls (laser msg topic (some sensor)) n = refl
  on_event-calls (point_cloud msg topic now none) n = refl
  on_event-calls (point_cloud msg topic now (some sensor)) n = refl
  on_event-calls (odometry msg) n = refl
  on_event-calls (gnss msg none) n = refl
  on_event-calls (gnss msg (some sensor)) n = observe_fix-calls (obs_of_fix msg) n
  on_event-calls (initialpose msg) n = refl
  on_event-calls (map_received obj) n = receive_map-calls (map_of obj) n
  on_event-calls (loop_timer h g t) n = loop-round h g t n
  on_event-calls tf_timer n = publish_tf-core n

  -- Whatever events the node handles, and whatever they throw, its core is afterwards what just
  -- these calls of the core's API make of the core before, in the order of the events: one
  -- observation for each scan, cloud, odometry or usable fix, none if tf does not know the sensor of
  -- a scan, cloud or fix; one relocalization for each initial pose; one new map for each map; and for
  -- each round of the timer one step, after the odometry made from the twist where that is due, and
  -- no step where a null observation in the queue ends the round before.
  pub on_events-calls :
      (es : List (Event mrpt engine ros)) (n : Node mrpt ros)
      → (on_events mrpt engine ros es n).core ≡ after_all mrpt engine (calls_of_all es n) n.core
  unfolding on_events after_all
  on_events-calls [] n = refl
  on_events-calls (e ∷ es) n =
      on_events-calls es (on_event mrpt engine ros e n).0
      ∙ ap (after_all mrpt engine (calls_of_all es (on_event mrpt engine ros e n).0))
          (on_event-calls e n)
      ∙ after_all-append (calls_of e n) _ n.core
