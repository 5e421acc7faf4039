-- ===== src/Examples/PfNodeEvents.antt =====
-- The localization node on the events of a short run.
use mrpt_navigation.Base.{
  ℕ, true, none, some, List, [], ◌∷◌, err, null_pointer, ◌≢◌, ◌≡◌, refl, ltb, ◌==◌, ◌-◌, ◌+◌,
}
use mrpt_navigation.Pf.Yaml.{as_enum, required, optional, child}
use mrpt_navigation.Pf.FilterOptions.{load_pf_options, load_kld_options}
use mrpt_navigation.Pf.Loading.{
  load_motion_model_2d, load_initial_pose, load_relocalization, override, load_from,
}
use mrpt_navigation.Pf.Api.{after_all, init_from_yaml, with_pipeline}
use mrpt_navigation.PfNode.Library.{Ros}
use mrpt_navigation.PfNode.Node.{Node, new_node}
use mrpt_navigation.PfNode.Loop.{
  Event, laser, initialpose, map_received, loop_timer, tf_timer, on_event, on_events,
}
use mrpt_navigation.PfNode.Loop.Calls.{calls_of_all, on_events-calls}
use mrpt_navigation.PfNode.Loop.Safety.{on_events-no_null}
use mrpt_navigation.Examples.Toy.{toy, engine, Reading}
use mrpt_navigation.Examples.PfStates.{parameters, scan}
use mrpt_navigation.Examples.PfLoading.{pipeline, file, quiet, started}

-- Messages are what they convert to.
abbrev pub ros : Ros toy
ros = record {
  same_stamp = λ a b. a == b;
  time_difference = λ a b. b - a;
  after_seconds = λ a d. a + d;
  less = ltb;
  mean_of = λ ps. ((0, 0, 0), (0, 0, 0));
  relative3 = λ p q. p;
  compose3 = λ p q. q;
  log_rotation = λ p. p.1;
  from_exp_and_translation = λ w v. (v, w);
  LaserScan = Reading;
  obs_of_scan = λ m p l. m;
  PointCloud = Reading;
  obs_of_cloud = λ m l t. m;
  OdometryMsg = Reading;
  obs_of_odometry = λ m. m;
  NavSatFix = Reading;
  obs_of_fix = λ m. some m;
  PoseMsg = ℕ;
  gaussian_of = λ m. record { mean = ((m, 0, 0), (0, 0, 0)); cov = λ i. 0 };
  gaussian_fit = λ ps. record { mean = ((0, 0, 0), (0, 0, 0)); cov = λ i. 0 };
  GenericObject = ℕ;
  map_of = λ m. some ((m, some m) ∷ [], none);
}

abbrev tf : (ℕ × ℕ × ℕ) × (ℕ × ℕ × ℕ)
tf = ((0, 0, 0), (0, 0, 0))

abbrev pub run : List (Event toy engine ros)
run =
    map_received 3
    ∷ loop_timer true true none
    ∷ loop_timer true true none
    ∷ laser scan 1 (some tf)
    ∷ loop_timer true true (some tf)
    ∷ initialpose 4
    ∷ laser scan 1 none
    ∷ tf_timer
    ∷ []

abbrev node : Node toy ros
node = new_node toy ros started 1

on_events-calls_example :
    (on_events toy engine ros run node).core
    ≡ after_all toy engine (calls_of_all toy engine ros run node) node.core
on_events-calls_example = on_events-calls toy engine ros run node

on_events-no_null_example :
    (on_event toy engine ros (loop_timer true true none) (on_events toy engine ros run node)).1
    ≢ err null_pointer
unfolding as_enum required optional child load_motion_model_2d load_initial_pose load_pf_options
    load_kld_options load_relocalization override load_from init_from_yaml with_pipeline
on_events-no_null_example =
    on_events-no_null toy engine ros quiet parameters file pipeline 1 run
      (loop_timer true true none) {c = started} refl refl (λ built. refl) refl
