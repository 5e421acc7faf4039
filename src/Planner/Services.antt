-- ===== src/Planner/Services.antt =====
-- The goal callback and the two services of `TPS_Astar_Planner_Node`.
pub mod Crash
pub mod Starts
use mrpt_navigation.Base.{
  Bool, false, Option, none, some, List, [], ◌∷◌, ◌++◌, Exception, null_pointer, Result, ok, err,
  assertion_failed, if◌then◌else◌,
}
use mrpt_navigation.Planner.Library.{Mpp}
use mrpt_navigation.Planner.Node.{Waypoint, Planner}
use mrpt_navigation.Planner.Plan.{PlanResult, do_path_plan}

module _ (mpp : Mpp) where
  open mpp use {Pose2, pose2, Pose3, x, y, yaw, flatten}

  -- `catch (const std::exception&)`: a null pointer is no exception, and ends the process.
  caught : Exception → Result (Unit {0})
  caught null_pointer = err null_pointer
  caught _ = ok tt

  unfoldable pub published : Planner mpp × Result (PlanResult mpp) → Planner mpp × Result (Unit {0})
  unfolding caught
  published (n, err e) = (n, caught e)
  published (n, ok res) =
      (if res.valid then record n { published = n.published ++ res.wps ∷ [] } else n, ok tt)

  -- tf answers with the pose of the robot, or `none`.
  unfoldable pub callback_goal :
      Pose2 → Option Pose3 → Planner mpp → Planner mpp × Result (Unit {0})
  unfolding published
  callback_goal goal none n = (n, ok tt)
  callback_goal goal (some robot) n =
      published (do_path_plan mpp (pose2 (x robot) (y robot) (yaw robot)) goal n)

  pub record Response : Type 0 where
    pub valid_path_found : Bool
    pub waypoints : List (Waypoint mpp)

  answered :
      Response → Planner mpp × Result (PlanResult mpp) → Planner mpp × Response × Result (Unit {0})
  unfolding caught
  answered resp (n, err e) = (n, resp, caught e)
  answered resp (n, ok res) =
      (n, record { valid_path_found = res.valid; waypoints = res.wps }, ok tt)

  pub srv_make_plan_to :
      Pose2 → Option Pose3 → Response → Planner mpp → Planner mpp × Response × Result (Unit {0})
  unfolding answered
  srv_make_plan_to target none resp n = (n, resp, ok tt)
  srv_make_plan_to target (some robot) resp n =
      answered resp (do_path_plan mpp (flatten robot) target n)

  -- The start of the request is not read.
  pub srv_make_plan_from_to :
      Pose2
      → Pose2
      → Option Pose3
      → Response
      → Planner mpp
      → Planner mpp × Response × Result (Unit {0})
  unfolding answered
  srv_make_plan_from_to start target none resp n = (n, resp, ok tt)
  srv_make_plan_from_to start target (some robot) resp n =
      answered resp (do_path_plan mpp (flatten robot) target n)
