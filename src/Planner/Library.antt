-- ===== src/Planner/Library.antt =====
-- What mrpt_tps_astar_planner takes from mrpt_path_planning, MRPT and ROS: a parameter.
use mrpt_navigation.Base.{Bool, Option, List, Result}
use mrpt_navigation.Pf.Library.{Double}

pub record PlannerInput (Real Pose2 Ptgs Source : Type 0) : Type 0 where
  pub ptgs : Ptgs
  pub start : Pose2
  pub start_vel : Real × Real × Real
  pub goal : Pose2
  pub obstacles : List Source
  pub world_min : Real × Real × Real
  pub world_max : Real × Real × Real

-- The motion tree is what `backtrack_path` makes of it: the edges of the path to a node.
pub record PlannerOutput (NodeId Edges : Type 0) : Type 0 where
  pub success : Bool
  pub best_node_id : Option NodeId
  pub backtrack_path : NodeId → Edges

pub record Mpp : Type 1 where
  pub double : Double
  pub Pose2 : Type 0
  pub pose2 : double.Real → double.Real → double.Real → Pose2
  pub x2 : Pose2 → double.Real
  pub y2 : Pose2 → double.Real
  pub compose2 : Pose2 → Pose2 → Pose2
  pub Pose3 : Type 0
  pub x : Pose3 → double.Real
  pub y : Pose3 → double.Real
  pub yaw : Pose3 → double.Real
  pub flatten : Pose3 → Pose2
  -- `TBoundingBoxf`
  pub Box : Type 0
  pub plus_minus_infinity : Box
  pub update_with_point : Box → double.Real × double.Real × double.Real → Box
  pub union_with : Box → Box → Box
  pub min_x : Box → double.Real
  pub min_y : Box → double.Real
  pub max_x : Box → double.Real
  pub max_y : Box → double.Real
  -- maps and messages
  pub Points : Type 0
  pub bounding_box : Points → Box
  pub move : Pose3 → Points → Points
  pub Grid : Type 0
  pub as_points : Grid → Points
  pub GridMsg : Type 0
  pub grid_of : GridMsg → Grid
  pub CloudMsg : Type 0
  pub points_of : CloudMsg → Points
  -- the planner
  pub Ptgs : Type 0
  pub Source : Type 0
  pub source_of : Option Points → Source
  pub obstacles_of : Source → Option Points
  pub CostMapParams : Type 0
  pub CostMap : Type 0
  pub cost_map_of : Points → CostMapParams → Pose2 → CostMap
  pub NodeId : Type 0
  pub Edges : Type 0
  pub plan :
      List CostMap
      → PlannerInput double.Real Pose2 Ptgs Source
      → Result (PlannerOutput NodeId Edges)
  -- `plan_to_trajectory`: the poses in the order of their times
  pub to_trajectory : Edges → Ptgs → double.Real → Result (List Pose2)
