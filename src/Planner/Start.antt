-- ===== src/Planner/Start.antt =====
-- The start of `TPS_Astar_Planner_Node`: `read_parameters`, the constructor and
-- `initialize_planner`. `show_gui` and the names of frames are left out.
pub mod Silent
use Prim.Native.String.{String}
use mrpt_navigation.Base.{
  Bool, true, false, Option, none, List, [], ◌∷◌, map, Result, ok, ◌>>=◌, ◌>>◌, assert, value_or,
  if◌then◌else◌, same_text,
}
use mrpt_navigation.Planner.Library.{Mpp}
use mrpt_navigation.Planner.Node.{
  InfoPerGridMapSource, InfoPerPointMapSource, WaypointMarks, Planner,
}

-- The parameters that have been given to the node.
pub record RosParameters (Real : Type 0) : Type 0 where
  pub topic_goal_sub : Option String
  pub topic_obstacles_gridmap_sub : Option String
  pub topic_obstacles_sub : Option String
  pub topic_static_maps : Option String
  pub topic_wp_seq_pub : Option String
  pub ptg_ini : Option String
  pub global_costmap_parameters : Option String
  pub prefer_waypoints_parameters : Option String
  pub planner_parameters : Option String
  pub mid_waypoints_allowed_distance : Option Real
  pub final_waypoint_allowed_distance : Option Real
  pub mid_waypoints_allow_skip : Option Bool
  pub final_waypoint_allow_skip : Option Bool
  pub mid_waypoints_ignore_heading : Option Bool
  pub final_waypoint_ignore_heading : Option Bool

-- `SystemDefaultsQoS`, and the last message with transient local durability.
pub data Qos : Type 0 where
  system_defaults : Qos
  map_qos : Qos

pub record Subscription : Type 0 where
  pub topic : String
  pub qos : Qos

-- The topics that are read.
pub record Topics : Type 0 where
  pub goal : String
  pub gridmap : String
  pub obstacle_points : String
  pub static_maps : String
  pub wp_seq : String

pub record Files : Type 0 where
  pub ptg_ini : String
  pub costmap_params : String
  pub wp_params : String
  pub planner_params : String

-- `staticTopics.count(topic) != 0`
unfoldable pub is_static : List String → String → Bool
is_static [] topic = false
is_static (s ∷ ss) topic = let rest = is_static ss topic in if same_text s topic then true else rest

-- The loop over the topics of one kind.
unfoldable pub subscribe : List String → List String → List Subscription
unfolding is_static
subscribe static_topics [] = []
subscribe static_topics (topic ∷ topics) =
    record {
      topic = topic;
      qos = if is_static static_topics topic then map_qos else system_defaults;
    }
    ∷ subscribe static_topics topics

module _ (mpp : Mpp) where
  open mpp use {double, Ptgs, CostMapParams}
  open double use {Real, ratio}

  -- Files and texts. The parameters of the planner stay in the planner.
  pub record Library : Type 1 where
    pub exists : String → Bool
    pub Yaml : Type 0
    pub from_file : String → Result Yaml
    pub params_from_yaml : Yaml → Result (Unit {0})
    pub Config : Type 0
    pub config_file : String → Result Config
    pub ptgs_from : Config → String → Result Ptgs
    pub cost_map_params_from : Yaml → Result CostMapParams
    pub no_ptgs : Ptgs
    pub default_cost_map_params : CostMapParams
    -- the texts between the delimiters
    pub tokenize : String → String → List String

  -- The node, its goal topic, its subscriptions to obstacles and the topic it publishes on.
  pub record Started : Type 0 where
    pub node : Planner mpp
    pub sub_goal : String
    pub gridmap_subs : List Subscription
    pub obstacle_subs : List Subscription
    pub pub_wp_seq : String

  module _ (library : Library) where
    open library use {
      exists, Yaml, from_file, params_from_yaml, config_file, ptgs_from, cost_map_params_from,
      no_ptgs, default_cost_map_params, tokenize,
    }

    pub mid_marks : RosParameters Real → WaypointMarks mpp
    mid_marks p = record {
      allowed_distance = value_or p.mid_waypoints_allowed_distance (ratio 5 10);
      allow_skip = value_or p.mid_waypoints_allow_skip true;
      ignore_heading = value_or p.mid_waypoints_ignore_heading false;
    }

    pub final_marks : RosParameters Real → WaypointMarks mpp
    final_marks p = record {
      allowed_distance = value_or p.final_waypoint_allowed_distance (ratio 4 10);
      allow_skip = value_or p.final_waypoint_allow_skip false;
      ignore_heading = value_or p.final_waypoint_ignore_heading false;
    }

    abbrev pub topics_of : RosParameters Real → Topics
    topics_of p = record {
      goal = value_or p.topic_goal_sub "tps_astar_nav_goal";
      gridmap = value_or p.topic_obstacles_gridmap_sub "/map";
      obstacle_points = value_or p.topic_obstacles_sub "";
      static_maps = value_or p.topic_static_maps "/map";
      wp_seq = value_or p.topic_wp_seq_pub "/waypoints";
    }

    abbrev pub files_of : RosParameters Real → Files
    files_of p = record {
      ptg_ini = value_or p.ptg_ini "ptgs.ini";
      costmap_params = value_or p.global_costmap_parameters "global-costmap-params.yaml";
      wp_params = value_or p.prefer_waypoints_parameters "waypoints-params.yaml";
      planner_params = value_or p.planner_parameters "planner-params.yaml";
    }

    -- The files must be there; that of the waypoints is read by nobody.
    pub read_parameters : RosParameters Real → Result (Topics × Files)
    read_parameters p =
        let f = files_of p in
        assert (exists f.ptg_ini)
        >> (assert (exists f.costmap_params)
            >> (assert (exists f.wp_params)
                >> (assert (exists f.planner_params) >> ok (topics_of p, f))))

    abbrev pub split_names : String → List String
    split_names text = tokenize text ", \t\r\n"

    -- What `gridmaps_` and `obstacle_points_` have before the first message.
    pub silent_grid : InfoPerGridMapSource mpp
    silent_grid = record { grid = none; grid_obstacles = none }

    pub silent_points : InfoPerPointMapSource mpp
    silent_points = record { obstacle_points = none }

    pub initialize_planner : Files → Planner mpp → Result (Planner mpp)
    initialize_planner f n = from_file f.planner_params >>= λ c.
        params_from_yaml c
        >> (config_file f.ptg_ini >>= λ cfg. ptgs_from cfg "SelfDriving" >>= λ ptgs.
            from_file f.costmap_params >>= λ yaml. cost_map_params_from yaml >>= λ params.
            ok (record n { ptgs = ptgs; cost_map_params = params }))

    -- The node before `initialize_planner`.
    pub subscribed : RosParameters Real → Topics → Planner mpp
    unfolding silent_grid silent_points mid_marks final_marks
    subscribed p t = record {
      gridmaps = map (λ topic. silent_grid) (split_names t.gridmap);
      obstacle_points = map (λ topic. silent_points) (split_names t.obstacle_points);
      ptgs = no_ptgs;
      cost_map_params = default_cost_map_params;
      cost_evaluators = [];
      mid_waypoints = mid_marks p;
      final_waypoint = final_marks p;
      published = [];
    }

    unfoldable pub new_planner : RosParameters Real → Result Started
    unfolding read_parameters subscribe initialize_planner subscribed
    new_planner p = read_parameters p >>= λ (t, f).
        let static_topics = split_names t.static_maps in
        initialize_planner f (subscribed p t) >>= λ n. ok (record {
          node = n;
          sub_goal = t.goal;
          gridmap_subs = subscribe static_topics (split_names t.gridmap);
          obstacle_subs = subscribe static_topics (split_names t.obstacle_points);
          pub_wp_seq = t.wp_seq;
        })
