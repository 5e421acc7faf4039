-- ===== src/Planner/Start/Silent.antt =====
-- A planner node that has started and has had no message yet.
use Prim.Native.String.{String}
use mrpt_navigation.Base.{
  none, Bool, true, false, List, [], ◌∷◌, map, is_empty, ◌&&◌, ok, some, err, null_pointer, ◌≡◌,
  ◌↔◌, refl, sym, ap, ◌∙◌,
}
use mrpt_navigation.Planner.Library.{Mpp}
use mrpt_navigation.Planner.Node.{Planner}
use mrpt_navigation.Planner.Plan.Missing.{
  grids_received, points_received, all_received, KeepsPoints,
}
use mrpt_navigation.Planner.Services.{Response, srv_make_plan_to}
use mrpt_navigation.Planner.Services.Crash.{NoNull, srv_make_plan_to-null_iff}
use mrpt_navigation.Planner.Start.{
  RosParameters, Library, Started, subscribe, topics_of, files_of, split_names, silent_grid,
  silent_points, read_parameters, initialize_planner, subscribed, new_planner,
}

subscribe-topics :
    (static_topics topics : List String)
    → map (λ sub. sub.topic) (subscribe static_topics topics) ≡ topics
unfolding subscribe
subscribe-topics static_topics [] = refl
subscribe-topics static_topics (topic ∷ topics) =
    ap (λ rest. topic ∷ rest) (subscribe-topics static_topics topics)

module _ (mpp : Mpp) (library : Library mpp) where
  open mpp use {double, Pose2, Pose3, Ptgs, CostMapParams}
  open double use {Real}
  open library use {
    exists, Yaml, from_file, params_from_yaml, Config, config_file, ptgs_from, cost_map_params_from,
    tokenize,
  }

  -- What the constructor asks of the files.
  pub record IsStartable (p : RosParameters Real) : Type 0 where
    pub ptg_ini_there : exists (files_of mpp library p).ptg_ini ≡ true
    pub costmap_there : exists (files_of mpp library p).costmap_params ≡ true
    pub wp_there : exists (files_of mpp library p).wp_params ≡ true
    pub planner_there : exists (files_of mpp library p).planner_params ≡ true
    pub planner_yaml : Yaml
    pub planner_read : from_file (files_of mpp library p).planner_params ≡ ok planner_yaml
    pub planner_loaded : params_from_yaml planner_yaml ≡ ok tt
    pub config : Config
    pub config_read : config_file (files_of mpp library p).ptg_ini ≡ ok config
    pub ptgs : Ptgs
    pub ptgs_loaded : ptgs_from config "SelfDriving" ≡ ok ptgs
    pub costmap_yaml : Yaml
    pub costmap_read : from_file (files_of mpp library p).costmap_params ≡ ok costmap_yaml
    pub costmap_params : CostMapParams
    pub costmap_loaded : cost_map_params_from costmap_yaml ≡ ok costmap_params

  -- The node that has read these files.
  abbrev loaded : (p : RosParameters Real) → IsStartable p → Planner mpp
  loaded p h = record (subscribed mpp library p (topics_of mpp library p)) {
    ptgs = h.ptgs;
    cost_map_params = h.costmap_params;
  }

  startable-initialize :
      (p : RosParameters Real) (h : IsStartable p)
      → initialize_planner mpp library
          (files_of mpp library p)
          (subscribed mpp library p (topics_of mpp library p))
        ≡ ok (loaded p h)
  unfolding initialize_planner
  startable-initialize p h =
      rw
        (
          h.planner_read, h.planner_loaded, h.config_read, h.ptgs_loaded, h.costmap_read,
          h.costmap_loaded,
        )
        refl

  startable-read :
      (p : RosParameters Real) (h : IsStartable p)
      → read_parameters mpp library p ≡ ok (topics_of mpp library p, files_of mpp library p)
  unfolding read_parameters
  startable-read p h = rw (h.ptg_ini_there, h.costmap_there, h.wp_there, h.planner_there) refl

  silent-grids :
      (topics : List String)
      → grids_received mpp (map (λ topic. silent_grid mpp library) topics) ≡ is_empty topics
  unfolding silent_grid
  silent-grids [] = refl
  silent-grids (topic ∷ topics) = refl

  silent-points :
      (topics : List String)
      → points_received mpp (map (λ topic. silent_points mpp library) topics) ≡ is_empty topics
  unfolding silent_points
  silent-points [] = refl
  silent-points (topic ∷ topics) = refl

  -- No topic of obstacles is configured.
  abbrev pub no_topics : RosParameters Real → Bool
  no_topics p =
      let t = topics_of mpp library p in
      is_empty (split_names mpp library t.gridmap)
      && is_empty (split_names mpp library t.obstacle_points)

  silent-all_received :
      (p : RosParameters Real) (h : IsStartable p) → all_received mpp (loaded p h) ≡ no_topics p
  unfolding subscribed
  silent-all_received p h =
      let t = topics_of mpp library p in
      λ i.
        silent-grids (split_names mpp library t.gridmap) i
        && silent-points (split_names mpp library t.obstacle_points) i

  -- With all files there and readable the node starts, with an empty source and a subscription
  -- for every topic of obstacles, in order. If it is then asked for a plan before any message, with the pose of
  -- the robot known, it ends by a null pointer exactly if a topic of obstacles is configured, where
  -- the planner's library dereferences none and a source made of points keeps them.
  pub new_planner-first_plan :
      NoNull mpp
      → KeepsPoints mpp
      → (p : RosParameters Real) (target : Pose2) (robot : Pose3) (resp : Response mpp)
      → IsStartable p
      → (s : Started mpp) × (new_planner mpp library p ≡ ok s)
        × (s.node.gridmaps
            ≡ map
                (λ topic. record { grid = none; grid_obstacles = none })
                (split_names mpp library (topics_of mpp library p).gridmap))
        × (s.node.obstacle_points
            ≡ map
                (λ topic. record { obstacle_points = none })
                (split_names mpp library (topics_of mpp library p).obstacle_points))
        × (map (λ sub. sub.topic) s.gridmap_subs
            ≡ split_names mpp library (topics_of mpp library p).gridmap)
        × (map (λ sub. sub.topic) s.obstacle_subs
            ≡ split_names mpp library (topics_of mpp library p).obstacle_points)
        × (((srv_make_plan_to mpp target (some robot) resp s.node).2 ≡ err null_pointer)
            ↔ (no_topics p ≡ false))
  unfolding new_planner subscribed silent_grid silent_points
  new_planner-first_plan laws law p target robot resp h =
      let t = topics_of mpp library p in
      let static_topics = split_names mpp library t.static_maps in
      let ended = srv_make_plan_to-null_iff mpp laws law target robot resp (loaded p h) in
      (
        record {
          node = loaded p h;
          sub_goal = t.goal;
          gridmap_subs = subscribe static_topics (split_names mpp library t.gridmap);
          obstacle_subs = subscribe static_topics (split_names mpp library t.obstacle_points);
          pub_wp_seq = t.wp_seq;
        },
        rw (startable-read p h, startable-initialize p h) refl,
        refl,
        refl,
        subscribe-topics static_topics (split_names mpp library t.gridmap),
        subscribe-topics static_topics (split_names mpp library t.obstacle_points),
        (
          λ k. sym (silent-all_received p h) ∙ ended.0 k,
          λ k. ended.1 (silent-all_received p h ∙ k),
        ),
      )
