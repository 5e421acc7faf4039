-- ===== src/PfNode/Loop/Safety.antt =====
-- No event that `PFLocalizationNode` handles dereferences a null pointer.
use mrpt_navigation.Base.{
  Bool, true, false, Option, none, some, List, [], ◌∷◌, Result, ok, err, null_pointer, ◌≡◌, ◌≢◌,
  refl, sym, has_value, arith, if◌then◌else◌,
}
use mrpt_navigation.Pf.Library.{Mrpt}
use mrpt_navigation.Pf.Parameters.{Parameters}
use mrpt_navigation.Pf.State.{Core, Engine, Particles, new_core}
use mrpt_navigation.Pf.WellFormed.{IsWellFormed}
use mrpt_navigation.Pf.Queue.{input_queue_has_odometry, input_queue_last_stamp}
use mrpt_navigation.Pf.Queue.Stamps.{input_queue_last_stamp-no_null}
use mrpt_navigation.Pf.Running.Stages.{NeverNull}
use mrpt_navigation.Pf.Api.{
  Call, observes, relocalizes, sets_fake_odometry, after, set_map_from_layers, init_from_yaml,
}
use mrpt_navigation.Pf.Api.Histories.{
  set_map-no_null, set_map-IsWellFormed, init_from_yaml-IsWellFormed, step-IsSafe,
  after-IsWellFormed,
}
use mrpt_navigation.PfNode.Library.{Ros}
use mrpt_navigation.PfNode.Node.{
  Node, Outcome, Twist, observe, observe_fix, callback_laser, callback_point_cloud,
  callback_odometry, callback_gnss, callback_initialpose, callback_map, receive_map, new_node,
}
use mrpt_navigation.PfNode.Twist.{
  fake_odometry, twist_odometry, create_odometry_from_twist, remember, twist_step,
  compare_estimates, update_estimated_twist,
}
use mrpt_navigation.PfNode.Publish.{publish_particles, update_tf_pub_data, publish_tf}
use mrpt_navigation.PfNode.Loop.{
  Event, laser, point_cloud, odometry, gnss, initialpose, map_received, loop_timer, tf_timer,
  and_then, core_step, finish, loop, on_event, on_events,
}

module _ (mrpt : Mrpt) (engine : Engine mrpt) (ros : Ros mrpt) where
  open mrpt use {Pose3, Stamp, Real, Obs, Label, Layer, Geo}
  open ros use {map_of, obs_of_fix}

  -- The core's invariant, and the two members of the previous estimate are set together.
  pub record IsSound (n : Node mrpt ros) : Type 0 where
    pub core : IsWellFormed mrpt n.core
    pub paired : has_value n.prev_parts ≡ has_value n.prev_stamp

  abbrev pub IsSafe : Outcome mrpt ros → Type 0
  IsSafe o = IsSound o.0 × (o.1 ≢ err null_pointer)

  finish-IsSafe :
      (h g : Bool) (t : Option Pose3) (n : Node mrpt ros)
      → IsSound n
      → IsSafe (finish mrpt engine ros h g t n)
  unfolding finish publish_particles update_tf_pub_data
  finish-IsSafe h g t n v = ground arith

  publish_tf-IsSafe : (n : Node mrpt ros) → IsSound n → IsSafe (publish_tf mrpt ros n)
  unfolding publish_tf
  publish_tf-IsSafe n v = ground arith

  twist_step-IsSafe :
      (parts : Particles mrpt Pose3) (cur : Stamp) (prev : Particles mrpt Pose3)
      (stamp : Option Stamp) (n : Node mrpt ros)
      → has_value stamp ≡ true
      → IsSound n
      → IsSafe (twist_step mrpt ros parts cur prev stamp n)
  unfolding twist_step remember
  twist_step-IsSafe parts cur prev none n s v = cc
  twist_step-IsSafe parts cur prev (some stamp) n s v = ground arith

  compare_estimates-IsSafe :
      (parts : Option (Particles mrpt Pose3)) (cur : Option Stamp)
      (prev : Option (Particles mrpt Pose3)) (n : Node mrpt ros)
      → has_value prev ≡ has_value n.prev_stamp
      → IsSound n
      → IsSafe (compare_estimates mrpt ros parts cur prev n)
  unfolding compare_estimates remember
  compare_estimates-IsSafe none cur prev n s v = ground arith
  compare_estimates-IsSafe (some parts) none prev n s v = ground arith
  compare_estimates-IsSafe (some parts) (some cur) none n s v = ground arith
  compare_estimates-IsSafe (some parts) (some cur) (some prev) n s v =
      twist_step-IsSafe parts cur prev n.prev_stamp n (sym s) v

  and_then-IsSafe :
      (o : Outcome mrpt ros) (f : Node mrpt ros → Outcome mrpt ros)
      → ((n : Node mrpt ros) → IsSound n → IsSafe (f n))
      → IsSafe o
      → IsSafe (and_then mrpt engine ros o f)
  unfolding and_then
  and_then-IsSafe (n, err e) f g v = v
  and_then-IsSafe (n, ok _) f g v = g n v.0

  module _ (laws : NeverNull mrpt engine) where
    fake_odometry-IsSafe :
        (tw : Twist mrpt ros) (prev : Stamp) (last : Result (Option Stamp)) (n : Node mrpt ros)
        → last ≢ err null_pointer
        → IsSound n
        → IsSafe (fake_odometry mrpt ros tw prev last n)
    unfolding fake_odometry after
    fake_odometry-IsSafe tw prev (err e) n s v = ground arith
    fake_odometry-IsSafe tw prev (ok none) n s v = ground arith
    fake_odometry-IsSafe tw prev (ok (some last)) n s v =
        let fine = after-IsWellFormed mrpt engine laws (sets_fake_odometry _) n.core v.core in
        (record { core = fine; paired = v.paired }, λ e. cc)

    twist_odometry-IsSafe :
        (tw : Option (Twist mrpt ros)) (prev : Option Stamp) (n : Node mrpt ros)
        → IsSound n
        → IsSafe (twist_odometry mrpt ros tw prev n)
    unfolding twist_odometry
    twist_odometry-IsSafe none prev n v = (v, λ e. cc)
    twist_odometry-IsSafe (some tw) none n v = (v, λ e. cc)
    twist_odometry-IsSafe (some tw) (some prev) n v =
        let last = input_queue_last_stamp mrpt n.core in
        elim (input_queue_has_odometry mrpt n.core)
          as (λ b. IsSafe (if b then (n, ok tt) else fake_odometry mrpt ros tw prev last n)) [
            | true ↦ (v, λ e. cc)
            | false ↦
                fake_odometry-IsSafe tw prev last n (input_queue_last_stamp-no_null mrpt n.core) v
          ]

    core_step-IsSafe : (n : Node mrpt ros) → IsSound n → IsSafe (core_step mrpt engine ros n)
    unfolding core_step
    core_step-IsSafe n v =
        let (fine, safe) = step-IsSafe mrpt engine laws n.core v.core in
        (record { core = fine; paired = v.paired }, safe)

    loop-IsSafe :
        (h g : Bool) (t : Option Pose3) (n : Node mrpt ros)
        → IsSound n
        → IsSafe (loop mrpt engine ros h g t n)
    unfolding loop create_odometry_from_twist update_estimated_twist
    loop-IsSafe h g t n v =
        let first = create_odometry_from_twist mrpt ros n in
        let second = and_then mrpt engine ros first (core_step mrpt engine ros) in
        let third = and_then mrpt engine ros second (update_estimated_twist mrpt ros) in
        and_then-IsSafe third (finish mrpt engine ros h g t) (finish-IsSafe h g t) (
          and_then-IsSafe second (update_estimated_twist mrpt ros)
            (λ m w.
              compare_estimates-IsSafe m.core.state.last_result m.last_sensor_stamp m.prev_parts m
                w.paired w)
            (and_then-IsSafe first (core_step mrpt engine ros) core_step-IsSafe
              (twist_odometry-IsSafe n.estimated_twist n.prev_stamp n v)))

    receive_map-IsSafe :
        (map : Option (List (Label × Option Layer) × Option Geo)) (n : Node mrpt ros)
        → IsSound n
        → IsSafe (receive_map mrpt ros map n)
    unfolding receive_map set_map_from_layers
    receive_map-IsSafe none n v = (v, λ e. cc)
    receive_map-IsSafe (some (layers, geo)) n v = (
      record { core = set_map-IsWellFormed mrpt _ geo _ n.core v.core; paired = v.paired },
      set_map-no_null mrpt _ geo _ n.core,
    )

    called-IsSound :
        (call : Call mrpt) (n : Node mrpt ros)
        → IsSound n
        → IsWellFormed mrpt (after mrpt engine call n.core)
    called-IsSound call n v = after-IsWellFormed mrpt engine laws call n.core v.core

    observe-IsSafe :
        (o : Obs) (n : Node mrpt ros) → IsSound n → IsSafe (observe mrpt ros o n, ok tt)
    unfolding observe after
    observe-IsSafe o n v =
        (record { core = called-IsSound (observes (some o)) n v; paired = v.paired }, λ e. cc)

    observe_fix-IsSafe :
        (o : Option Obs) (n : Node mrpt ros) → IsSound n → IsSafe (observe_fix mrpt ros o n, ok tt)
    unfolding observe_fix after
    observe_fix-IsSafe none n v = (v, λ e. cc)
    observe_fix-IsSafe (some o) n v =
        (record { core = called-IsSound (observes (some o)) n v; paired = v.paired }, λ e. cc)

    on_event-IsSafe :
        (e : Event mrpt engine ros) (n : Node mrpt ros)
        → IsSound n
        → IsSafe (on_event mrpt engine ros e n)
    unfolding on_event callback_laser callback_point_cloud callback_odometry callback_gnss
        callback_initialpose callback_map after
    on_event-IsSafe (laser msg topic none) n v = (v, λ e. cc)
    on_event-IsSafe (laser msg topic (some sensor)) n v = observe-IsSafe _ n v
    on_event-IsSafe (point_cloud msg topic now none) n v = (v, λ e. cc)
    on_event-IsSafe (point_cloud msg topic now (some sensor)) n v = observe-IsSafe _ n v
    on_event-IsSafe (odometry msg) n v = observe-IsSafe _ n v
    on_event-IsSafe (gnss msg none) n v = (v, λ e. cc)
    on_event-IsSafe (gnss msg (some sensor)) n v = observe_fix-IsSafe (obs_of_fix msg) n v
    on_event-IsSafe (initialpose msg) n v =
        (record { core = called-IsSound (relocalizes _) n v; paired = v.paired }, λ e. cc)
    on_event-IsSafe (map_received obj) n v = receive_map-IsSafe (map_of obj) n v
    on_event-IsSafe (loop_timer h g t) n v = loop-IsSafe h g t n v
    on_event-IsSafe tf_timer n v = publish_tf-IsSafe n v

    on_events-IsSound :
        (es : List (Event mrpt engine ros)) (n : Node mrpt ros)
        → IsSound n
        → IsSound (on_events mrpt engine ros es n)
    unfolding on_events
    on_events-IsSound [] n v = v
    on_events-IsSound (e ∷ es) n v = on_events-IsSound es _ (on_event-IsSafe e n v).0

  -- A node is built around a core with an initial pose and no map that has loaded its parameters,
  -- with a relocalization pipeline if relocalization is built in.
  -- After any events, further ones dereference no null pointer, neither in the core nor in the
  -- node, if the filter library does not and relocalization does not with the ICP that it is given.
  -- The core's calls of `update_gui` are left out, as with the debug window off.
  pub on_events-no_null :
      (laws : NeverNull mrpt engine) (params : Parameters mrpt) (yaml pipeline : mrpt.Node)
      (tolerance : Real) (es : List (Event mrpt engine ros)) (e : Event mrpt engine ros)
      {c : Core mrpt}
      → has_value params.initial_pose ≡ true
      → params.metric_map ≡ none
      → (mrpt.have_mola ≡ true → mrpt.is_empty_node pipeline ≡ false)
      → init_from_yaml mrpt yaml pipeline (new_core mrpt params) ≡ ok c
      → (on_event mrpt engine ros e
          (on_events mrpt engine ros es (new_node mrpt ros c tolerance))).1
        ≢ err null_pointer
  on_events-no_null laws params yaml pipeline tolerance es e {c} posed unmapped given loaded =
      let ready =
        init_from_yaml-IsWellFormed mrpt params yaml pipeline posed unmapped given loaded in
      let sound =
        on_events-IsSound laws es (new_node mrpt ros c tolerance)
          (record { core = ready; paired = refl }) in
      (on_event-IsSafe laws e _ sound).1
