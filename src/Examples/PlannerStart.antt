-- ===== src/Examples/PlannerStart.antt =====
-- The planner node started from files that are there, with one gridmap topic, and asked for a plan.
use Prim.Native.String.{String}
use mrpt_navigation.Base.{
  ℕ, true, false, none, some, [], ◌∷◌, map, ok, err, assertion_failed, null_pointer, ◌≡◌, ◌↔◌, refl,
  same_text, if◌then◌else◌,
}
use mrpt_navigation.Planner.Services.{Response, srv_make_plan_to}
use mrpt_navigation.Planner.Start.{
  RosParameters, Library, Started, Subscription, map_qos, system_defaults, subscribe, new_planner,
}
use mrpt_navigation.Planner.Start.Silent.{IsStartable, no_topics, new_planner-first_plan}
use mrpt_navigation.Examples.PlannerTrips.{mpp, no_null}

abbrev library : Library mpp
library = record {
  exists = λ s. if same_text s "nowhere" then false else true;
  Yaml = String;
  from_file = λ s. ok s;
  params_from_yaml = λ c. ok tt;
  Config = String;
  config_file = λ s. ok s;
  ptgs_from = λ c section. ok tt;
  cost_map_params_from = λ c. ok tt;
  no_ptgs = tt;
  default_cost_map_params = tt;
  tokenize = λ text delimiters. if same_text text "" then [] else text ∷ [];
}

abbrev given : RosParameters ℕ
given = record {
  topic_goal_sub = none;
  topic_obstacles_gridmap_sub = none;
  topic_obstacles_sub = some "";
  topic_static_maps = none;
  topic_wp_seq_pub = none;
  ptg_ini = none;
  global_costmap_parameters = none;
  prefer_waypoints_parameters = none;
  planner_parameters = none;
  mid_waypoints_allowed_distance = some 3;
  final_waypoint_allowed_distance = none;
  mid_waypoints_allow_skip = none;
  final_waypoint_allow_skip = none;
  mid_waypoints_ignore_heading = none;
  final_waypoint_ignore_heading = none;
}

two_qos :
    subscribe ("/map" ∷ []) ("/points" ∷ "/map" ∷ [])
    ≡ record { topic = "/points"; qos = system_defaults }
      ∷ record { topic = "/map"; qos = map_qos }
      ∷ []
unfolding subscribe
two_qos = refl

-- Nothing reads this file, and yet the node does not start without it.
no_wp_params :
    new_planner mpp library (record given { prefer_waypoints_parameters = some "nowhere" })
    ≡ err assertion_failed
unfolding new_planner
no_wp_params = refl

abbrev startable : IsStartable mpp library given
startable = record {
  ptg_ini_there = refl;
  costmap_there = refl;
  wp_there = refl;
  planner_there = refl;
  planner_yaml = "planner-params.yaml";
  planner_read = refl;
  planner_loaded = refl;
  config = "ptgs.ini";
  config_read = refl;
  ptgs = tt;
  ptgs_loaded = refl;
  costmap_yaml = "global-costmap-params.yaml";
  costmap_read = refl;
  costmap_params = tt;
  costmap_loaded = refl;
}

abbrev blank : Response mpp
blank = record { valid_path_found = false; waypoints = [] }

new_planner-first_plan_example :
    (s : Started mpp) × (new_planner mpp library given ≡ ok s)
    × (s.node.gridmaps ≡ record { grid = none; grid_obstacles = none } ∷ [])
    × (s.node.obstacle_points ≡ [])
    × (map (λ (sub : Subscription). sub.topic) s.gridmap_subs ≡ "/map" ∷ [])
    × (map (λ (sub : Subscription). sub.topic) s.obstacle_subs ≡ [])
    × (((srv_make_plan_to mpp (9, 9, 0) (some (1, 2, 0)) blank s.node).2 ≡ err null_pointer)
        ↔ (no_topics mpp library given ≡ false))
new_planner-first_plan_example =
    new_planner-first_plan mpp library no_null (λ p. refl) given (9, 9, 0) (1, 2, 0) blank startable
