-- ===== src/Nav/Node.antt =====
-- The state of `ReactiveNav2DNode`, and `MyReactiveInterface`: the callbacks of the engine.
pub mod Verdicts
use Prim.Native.String.{String}
use mrpt_navigation.Base.{
  ℕ, Bool, true, false, Option, none, some, List, [], ◌∷◌, ◌++◌, if◌then◌else◌,
}
use mrpt_navigation.Nav.Library.{
  Mrpt, Callback, start_event, end_event, waypoint_reached, new_waypoint_target, end_due_to_error,
  way_seems_blocked, apparent_collision, cannot_get_closer, change_speeds, stop,
}

-- The texts of `publish_event_message`.
pub data Event : Type 0 where
  started : Event
  ended : Event
  reached : ℕ → Event
  skipped : ℕ → Event
  heading_to : ℕ → Event
  failed : Event
  blocked : Event
  collision : Event
  no_closer : Event

module _ (mrpt : Mrpt) where
  open mrpt use {Real, ratio, Pose2, Points, no_points, Engine}

  -- `odometry_`
  pub record Odometry : Type 0 where
    pub pose : Pose2
    pub vx : Real
    pub vy : Real
    pub omega : Real
    pub has_velocities : Bool

  pub record Node : Type 0 where
    pub initialized : Bool
    pub target_allowed_distance : Real
    pub frame_reference : String
    pub frame_robot : String
    pub pure_pursuit_mode : Bool
    pub odometry : Odometry
    pub last_obstacles : Points
    pub current_nav_ended_successfully : Option Bool
    pub rnav_engine : Engine
    -- what has been published, the first message first
    pub events : List Event
    pub cmd_vel : List (Real × Real)

  publish_event_message : Event → Node → Node
  publish_event_message e n = record n { events = n.events ++ e ∷ [] }

  -- `changeSpeeds`
  send_speeds : Real → Real → Node → Node
  send_speeds v w n = record n { cmd_vel = n.cmd_vel ++ (v, w) ∷ [] }

  -- The second half of a callback that ends a navigation, under the mutex of the flag.
  unfoldable pub set_ended : Bool → Node → Node
  set_ended ok n = record n { current_nav_ended_successfully = some ok }

  ends : Bool → Event → Node → Node
  unfolding publish_event_message set_ended
  ends ok e n = set_ended ok (publish_event_message e n)

  -- The callbacks of `MyReactiveInterface`.
  pub on_callback : Callback Real → Node → Node
  unfolding publish_event_message send_speeds set_ended ends
  on_callback start_event n = publish_event_message started n
  on_callback end_event n = ends true ended n
  on_callback (waypoint_reached i reached_not_skipped) n =
      publish_event_message (if reached_not_skipped then reached i else skipped i) n
  on_callback (new_waypoint_target i) n = publish_event_message (heading_to i) n
  on_callback end_due_to_error n = ends false failed n
  on_callback way_seems_blocked n = publish_event_message blocked n
  on_callback apparent_collision n = publish_event_message collision n
  on_callback cannot_get_closer n = ends false no_closer n
  on_callback (change_speeds v w) n = send_speeds v w n
  on_callback (stop is_emergency) n = send_speeds (ratio 0 1) (ratio 0 1) n

  pub on_callbacks : List (Callback Real) → Node → Node
  on_callbacks [] n = n
  on_callbacks (c ∷ cs) n = on_callbacks cs (on_callback c n)

  -- A call of the engine, with the callbacks that it makes.
  pub engine_call : Engine × List (Callback Real) → Node → Node
  engine_call (e, cs) n = on_callbacks cs (record n { rnav_engine = e })

  -- `senseObstacles`
  unfoldable pub sense_obstacles : Node → Points
  sense_obstacles n = if n.pure_pursuit_mode then no_points else n.last_obstacles
