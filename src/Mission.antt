-- ===== src/Mission.antt =====
-- A goal for the planner node of mrpt_tps_astar_planner, whose plan mrpt_reactivenav2d follows: the
-- waypoints that `callback_goal` publishes are the sequence that `on_waypoint_seq_received` gets.
pub mod Followed
pub mod Obstacles
use Prim.Native.String.{String}
use mrpt_navigation.Base.{Bool, Option, List, [], ◌∷◌, map, Result}
use mrpt_navigation.Planner.Library.{Mpp}
use mrpt_navigation.Planner.Node.{Planner, Waypoint}
use mrpt_navigation.Planner.Services.{callback_goal}
use mrpt_navigation.Nav.Library.{Mrpt}
use mrpt_navigation.Nav.Node.{Node}
use mrpt_navigation.Nav.Commands.{WaypointMsg, WaypointSequence, on_waypoint_seq_received}

module _ (mpp : Mpp) (mrpt : Mrpt) where
  -- Numbers and poses on their way through a message.
  pub record Link : Type 0 where
    pub real_of : mpp.double.Real → mrpt.Real
    pub pose_of : mpp.Pose2 → mrpt.Pose3

  module _ (link : Link) where
    open link use {real_of, pose_of}

    pub waypoint_msg : Waypoint mpp → WaypointMsg mrpt
    waypoint_msg w = record {
      target = pose_of w.target;
      allowed_distance = real_of w.marks.allowed_distance;
      allow_skip = w.marks.allow_skip;
      ignore_heading = w.marks.ignore_heading;
    }

    -- The message, in the planner's frame of the map.
    pub sequence_of : String → List (Waypoint mpp) → WaypointSequence mrpt
    unfolding waypoint_msg
    sequence_of frame_id_map wps = record {
      frame_id = frame_id_map;
      waypoints = map waypoint_msg wps;
    }

    -- The messages arrive in the order of their publication, with what tf answers to each.
    pub deliver : String → Option mrpt.Pose3 → List (List (Waypoint mpp)) → Node mrpt → Node mrpt
    unfolding sequence_of
    deliver frame tf [] n = n
    deliver frame tf (wps ∷ rest) n =
        deliver frame tf rest (on_waypoint_seq_received mrpt (sequence_of frame wps) tf n)

    -- The planner's callback, and then the navigation node on what has been published in it.
    pub mission :
        String
        → mpp.Pose2
        → Option mpp.Pose3
        → Option mrpt.Pose3
        → Planner mpp
        → Node mrpt
        → Planner mpp × Node mrpt × Result (Unit {0})
    unfolding deliver
    mission frame goal robot tf p n =
        let (p', outcome) = callback_goal mpp goal robot (record p { published = [] }) in
        (p', deliver frame tf p'.published n, outcome)
