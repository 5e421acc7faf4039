-- ===== src/Nav/Library.antt =====
-- What mrpt_reactivenav2d_node.cpp takes from MRPT: poses, point clouds, and the reactive
-- navigation engine, which answers with callbacks. All of it is a parameter.
use mrpt_navigation.Base.{ℕ, Bool, Option, List}
use mrpt_navigation.Pf.Library.{Double}

-- The calls of `CRobot2NavInterface` that the engine makes.
pub data Callback (Real : Type 0) : Type 0 where
  start_event : Callback Real
  end_event : Callback Real
  waypoint_reached : ℕ → Bool → Callback Real
  new_waypoint_target : ℕ → Callback Real
  end_due_to_error : Callback Real
  way_seems_blocked : Callback Real
  apparent_collision : Callback Real
  cannot_get_closer : Callback Real
  -- linear and angular speed, of a differential driven command
  change_speeds : Real → Real → Callback Real
  stop : Bool → Callback Real

pub data NavState : Type 0 where
  idle navigating suspended nav_error : NavState

-- `mrpt::nav::TWaypoint`
pub record Waypoint (Real : Type 0) : Type 0 where
  pub x : Real
  pub y : Real
  pub allowed_distance : Real
  pub allow_skip : Bool
  pub target_heading : Option Real

-- `CLogFileRecord`, as far as it is read: the desired direction of each PTG.
pub record LogRecord (Real : Type 0) : Type 0 where
  pub n_ptgs : ℕ
  -- none for a negative index
  pub selected : Option ℕ
  pub desired_direction : List Real

pub record Mrpt : Type 1 where
  pub double : Double
  pub open double use *
  pub is_nan : Real → Bool
  pub Pose2 : Type 0
  pub pose2 : Real → Real → Real → Pose2
  pub x2 : Pose2 → Real
  pub y2 : Pose2 → Real
  pub Pose3 : Type 0
  pub x : Pose3 → Real
  pub y : Pose3 → Real
  pub yaw : Pose3 → Real
  pub flatten : Pose3 → Pose2
  pub identity3 : Pose3
  -- `a + b`
  pub compose : Pose3 → Pose3 → Pose3
  pub Points : Type 0
  pub no_points : Points
  pub Cloud : Type 0
  pub points_of : Cloud → Points
  -- `CReactiveNavigationSystem`, each call with the callbacks it makes
  pub Engine : Type 0
  pub initialize : Engine → Engine
  pub navigate : Engine → Real → Real → Real → Engine × List (Callback Real)
  pub navigate_waypoints : Engine → List (Waypoint Real) → Engine × List (Callback Real)
  pub cancel : Engine → Engine × List (Callback Real)
  pub change_shape : Engine → List (Real × Real) → Engine
  -- one step, with the pose that the node reports (none if tf fails) and the obstacles
  pub navigation_step : Engine → Option Pose2 → Points → Engine × List (Callback Real)
  pub current_state : Engine → NavState
  pub last_log : Engine → LogRecord Real
  -- `getWaypointNavStatus`
  pub num_waypoints : Engine → ℕ
  pub index_current_goal : Engine → ℕ
  pub final_goal_reached : Engine → Bool
  -- the path of a PTG in a direction: its steps, the duration of one, and the position at each
  pub alpha_index : Engine → ℕ → Real → ℕ
  pub step_count : Engine → ℕ → ℕ → ℕ
  pub step_duration : Engine → ℕ → Real
  pub path_pose : Engine → ℕ → ℕ → ℕ → Real × Real
  pub positive : Real → Bool
