-- ===== src/Planner/Plan.antt =====
-- `do_path_plan` of `TPS_Astar_Planner_Node`.
pub mod Covers
pub mod Keeps
pub mod Missing
pub mod Waypoints
use mrpt_navigation.Base.{
  Bool, true, false, Option, none, some, List, [], ◌∷◌, ◌++◌, map, Result, ok, err, null_pointer,
  ◌>>=◌, if◌then◌else◌, or_throw,
}
use mrpt_navigation.Planner.Library.{Mpp, PlannerInput, PlannerOutput}
use mrpt_navigation.Planner.Node.{
  InfoPerGridMapSource, InfoPerPointMapSource, WaypointMarks, Waypoint, Planner,
}

module _ (mpp : Mpp) where
  open mpp use {
    double, Pose2, x2, y2, compose2, Box, plus_minus_infinity, update_with_point, union_with, min_x,
    min_y, max_x, max_y, Points, bounding_box, Ptgs, Source, source_of, obstacles_of, CostMap,
    CostMapParams, cost_map_of, NodeId, Edges, plan, to_trajectory,
  }
  open double use {Real, pi, ratio, negate, plus, minus}

  -- Without the header of the sequence and the planner's own output.
  pub record PlanResult : Type 0 where
    pub valid : Bool
    pub wps : List (Waypoint mpp)

  -- What the loops over the sources build: obstacles, bounding box and cost maps.
  pub record Gathered : Type 0 where
    pub obstacles : List Source
    pub bbox : Box
    pub cost_maps : List CostMap

  -- One source: the points of its box, and the points that are counted and make a cost map.
  unfoldable pub gather :
      CostMapParams → Pose2 → Source → Option Points → Option Points → Gathered → Result Gathered
  gather params start source boxed counted g = or_throw boxed null_pointer >>= λ b.
      or_throw counted null_pointer >>= λ c. ok (record {
        obstacles = g.obstacles ++ source ∷ [];
        bbox = union_with g.bbox (bounding_box b);
        cost_maps = g.cost_maps ++ cost_map_of c params start ∷ [];
      })

  unfoldable pub gather_gridmaps :
      CostMapParams → Pose2 → List (InfoPerGridMapSource mpp) → Gathered → Result Gathered
  unfolding gather
  gather_gridmaps params start [] g = ok g
  gather_gridmaps params start (e ∷ es) g =
      gather params start (source_of e.grid_obstacles) e.grid_obstacles e.grid_obstacles g >>= λ g'.
      gather_gridmaps params start es g'

  unfoldable pub gather_points :
      CostMapParams → Pose2 → List (InfoPerPointMapSource mpp) → Gathered → Result Gathered
  unfolding gather
  gather_points params start [] g = ok g
  gather_points params start (e ∷ es) g =
      gather params start (source_of e.obstacle_points) (obstacles_of (source_of e.obstacle_points))
        e.obstacle_points g
      >>= λ g'. gather_points params start es g'

  point : Pose2 → Real × Real × Real
  point p = (x2 p, y2 p, ratio 0 1)

  unfoldable pub first_box : Pose2 → Pose2 → Box
  unfolding point
  first_box start goal =
      update_with_point (update_with_point plus_minus_infinity (point start)) (point goal)

  pub minus_margin : Pose2 → Real × Real × Real
  minus_margin p =
      (minus (x2 p) (ratio 2 1), minus (y2 p) (ratio 2 1), minus (ratio 0 1) (ratio 0 1))

  pub plus_margin : Pose2 → Real × Real × Real
  plus_margin p = (plus (x2 p) (ratio 2 1), plus (y2 p) (ratio 2 1), plus (ratio 0 1) (ratio 0 1))

  pub with_margins : Pose2 → Pose2 → Box → Box
  unfolding minus_margin plus_margin
  with_margins start goal b =
      update_with_point
        (update_with_point
          (update_with_point (update_with_point b (minus_margin start)) (plus_margin start))
          (minus_margin goal))
        (plus_margin goal)

  unfoldable pub gather_all : Pose2 → Pose2 → Planner mpp → Result Gathered
  unfolding gather_gridmaps gather_points first_box
  gather_all start goal n =
      let empty : Gathered = record {
        obstacles = [];
        bbox = first_box start goal;
        cost_maps = [];
      } in
      gather_gridmaps n.cost_map_params start n.gridmaps empty >>= λ g.
      gather_points n.cost_map_params start n.obstacle_points g

  unfoldable pub planner_input :
      Pose2 → Pose2 → Planner mpp → Gathered → PlannerInput Real Pose2 Ptgs Source
  unfolding with_margins
  planner_input start goal n g =
      let b = with_margins start goal g.bbox in
      record {
        ptgs = n.ptgs;
        start = start;
        start_vel = (ratio 0 1, ratio 0 1, ratio 0 1);
        goal = goal;
        obstacles = g.obstacles;
        world_min = (min_x b, min_y b, negate pi);
        world_max = (max_x b, max_y b, pi);
      }

  -- The trajectory is relative to the start of the plan's original input, which is the input.
  pub waypoints : Planner mpp → Pose2 → Pose2 → List Pose2 → List (Waypoint mpp)
  waypoints n start goal path =
      map (λ p. record { target = compose2 start p; marks = n.mid_waypoints }) path
      ++ record { target = goal; marks = n.final_waypoint } ∷ []

  abbrev pub no_plan : PlanResult
  no_plan = record { valid = false; wps = [] }

  unfoldable pub plan_result :
      Pose2 → Pose2 → Planner mpp → PlannerOutput NodeId Edges → Planner mpp × Result PlanResult
  unfolding waypoints
  plan_result start goal n out = elim out.best_node_id [
    | none ↦ (n, ok no_plan)
    | some best ↦
        let edges = out.backtrack_path best in
        if out.success
        then (
          n,
          to_trajectory edges n.ptgs (ratio 1 4) >>= λ path.
              ok (record { valid = true; wps = waypoints n start goal path }),
        )
        else (record n { cost_evaluators = [] }, ok no_plan)
  ]

  -- A null pointer among the sources ends the process.
  unfoldable pub do_path_plan : Pose2 → Pose2 → Planner mpp → Planner mpp × Result PlanResult
  unfolding gather_all planner_input plan_result
  do_path_plan start goal n = elim (gather_all start goal n) [
    | err e ↦ (n, err e)
    | ok g ↦
        let ready = record n { cost_evaluators = g.cost_maps } in
        elim (plan g.cost_maps (planner_input start goal n g)) [
          | err e ↦ (ready, err e)
          | ok out ↦ plan_result start goal ready out
        ]
  ]
