-- ===== src/Planner/Node.antt =====
-- The state of `TPS_Astar_Planner_Node`, and the callbacks that bring obstacles.
use mrpt_navigation.Base.{
  Bool, Option, none, some, List, [], ◌∷◌, Result, ok, err, assertion_failed,
}
use mrpt_navigation.Planner.Library.{Mpp}

module _ (mpp : Mpp) where
  open mpp use {
    double, Pose2, Pose3, Points, move, Grid, as_points, GridMsg, grid_of, CloudMsg, points_of,
    Ptgs, CostMapParams, CostMap,
  }
  open double use {Real}

  -- A null pointer, until the first message comes, is `none`.
  pub record InfoPerGridMapSource : Type 0 where
    pub grid : Option Grid
    pub grid_obstacles : Option Points

  pub record InfoPerPointMapSource : Type 0 where
    pub obstacle_points : Option Points

  -- How the waypoints of a plan are marked.
  pub record WaypointMarks : Type 0 where
    pub allowed_distance : Real
    pub allow_skip : Bool
    pub ignore_heading : Bool

  pub record Waypoint : Type 0 where
    pub target : Pose2
    pub marks : WaypointMarks

  pub record Planner : Type 0 where
    pub gridmaps : List InfoPerGridMapSource
    pub obstacle_points : List InfoPerPointMapSource
    pub ptgs : Ptgs
    pub cost_map_params : CostMapParams
    pub cost_evaluators : List CostMap
    pub mid_waypoints : WaypointMarks
    pub final_waypoint : WaypointMarks
    -- the sequences of waypoints that have been published
    pub published : List (List Waypoint)

  pub update_map : GridMsg → InfoPerGridMapSource → InfoPerGridMapSource
  update_map msg e = record {
    grid = some (grid_of msg);
    grid_obstacles = some (as_points (grid_of msg));
  }

  -- The answers of tf to the tries until 5 s are over, when the assertion throws.
  pub wait_loop : List (Option Pose3) → Result Pose3
  wait_loop [] = err assertion_failed
  wait_loop (none ∷ tries) = wait_loop tries
  wait_loop (some pose ∷ tries) = ok pose

  -- A cloud that cannot be converted is logged, and used.
  pub update_obstacles :
      CloudMsg → List (Option Pose3) → InfoPerPointMapSource → Result InfoPerPointMapSource
  unfolding wait_loop
  update_obstacles msg tries e = elim (wait_loop tries) [
    | err thrown ↦ err thrown
    | ok pose ↦ ok (record { obstacle_points = some (move pose (points_of msg)) })
  ]
