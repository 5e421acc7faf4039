-- ===== src/Examples/NavStates.antt =====
-- mrpt_reactivenav2d with an engine that reaches its target in one step.
use Prim.Native.Nat.{ℕ, ◌+◌, ◌<◌}
use mrpt_navigation.Base.{
  true, false, Option, none, some, List, [], ◌∷◌, ◌++◌, ◌≡◌, ◌≢◌, refl, arith, get_elem?,
}
use mrpt_navigation.Nav.Library.{
  Mrpt, NavState, idle, navigating, start_event, end_event, change_speeds, stop,
}
use mrpt_navigation.Nav.Node.{Node, Event}
use mrpt_navigation.Nav.Node.Verdicts.{last_verdict}
use mrpt_navigation.Nav.Commands.{WaypointSequence, update_waypoint_sequence, on_goal_received}
use mrpt_navigation.Nav.Commands.Ended.{
  Command, goal_received, Quiet, timer, obstacles_received, on_command, on_all_quiet, tells,
  under_way, ended_flag-since_command,
}
use mrpt_navigation.Nav.Commands.{new_command}
use mrpt_navigation.Nav.Commands.Waypoints.{lost_frame-ignored}
use mrpt_navigation.Nav.Actions.{Action, success, goal, Server, poll, poll_action}
use mrpt_navigation.Nav.Actions.Outcomes.{poll_action-Outcome, Outcome}
use mrpt_navigation.Nav.Actions.Final.{
  Happening, goal_requested, cancel_requested, polled, quiet, happen_all, Ended, happen_all-Ended,
}
use mrpt_navigation.Nav.Markers.{
  Marker, line, log_to_margers, num_steps_to_draw, path_points, before_last, smaller_size,
}
use mrpt_navigation.Nav.Markers.Bounds.{Drawn, log_to_margers-Drawn}
use mrpt_navigation.Examples.Toy.{numbers, Triple}

abbrev pub world : Mrpt
world = record {
  double = numbers;
  is_nan = λ a. false;
  Pose2 = Triple;
  pose2 = λ a b c. (a, b, c);
  x2 = λ p. p.0;
  y2 = λ p. p.1;
  Pose3 = Triple;
  x = λ p. p.0;
  y = λ p. p.1;
  yaw = λ p. p.2;
  flatten = λ p. p;
  identity3 = (0, 0, 0);
  compose = λ p q. (p.0 + q.0, p.1 + q.1, p.2 + q.2);
  Points = ℕ;
  no_points = 0;
  Cloud = ℕ;
  points_of = λ c. c;
  Engine = NavState;
  initialize = λ e. e;
  navigate = λ e a b d. (navigating, []);
  navigate_waypoints = λ e wps. (navigating, []);
  cancel = λ e. (idle, stop false ∷ []);
  change_shape = λ e ps. e;
  navigation_step = λ e pose obstacles. (idle, start_event ∷ change_speeds 1 0 ∷ end_event ∷ []);
  current_state = λ e. e;
  last_log = λ e. record { n_ptgs = 1; selected = some 0; desired_direction = 1 ∷ [] };
  num_waypoints = λ e. 1;
  index_current_goal = λ e. 0;
  final_goal_reached = λ e. false;
  alpha_index = λ e ptg d. d;
  step_count = λ e ptg k. 5;
  step_duration = λ e ptg. 1;
  path_pose = λ e ptg k i. (i, k);
  positive = λ d. true;
}

abbrev pub robot : Node world
robot = record {
  initialized = false;
  target_allowed_distance = 1;
  frame_reference = "map";
  frame_robot = "base_link";
  pure_pursuit_mode = false;
  odometry = record { pose = (0, 0, 0); vx = 0; vy = 0; omega = 0; has_velocities = false };
  last_obstacles = 0;
  current_nav_ended_successfully = some false;
  rnav_engine = idle;
  events = [];
  cmd_vel = [];
}

abbrev go : Command world
go = goal_received "map" (4, 2, 0) none

abbrev then_drive : List (Quiet world)
then_drive = obstacles_received 9 ∷ timer (some (0, 0, 0)) ∷ []

ended_flag-since_command_example :
    let m = on_all_quiet world then_drive (
      tells world go robot (
        on_all_quiet world then_drive
          (under_way world (some true) (start_event ∷ []) (new_command world robot)))) in
    ((new : List Event) × (m.events ≡ [] ++ new)
      × (m.current_nav_ended_successfully ≡ last_verdict new (some true)))
    × (on_command world go robot ≡ tells world go robot (new_command world robot))
ended_flag-since_command_example =
    ended_flag-since_command world go (some true) (start_event ∷ []) then_drive then_drive robot

abbrev sequence : WaypointSequence world
sequence = record {
  frame_id = "odom";
  waypoints =
      record { target = (1, 2, 0); allowed_distance = 1; allow_skip = true; ignore_heading = false }
      ∷ [];
}

lost_frame-ignored_example :
    ((tf : Option Triple)
      → update_waypoint_sequence world sequence none robot
        ≡ update_waypoint_sequence world (record sequence { frame_id = "map" }) tf robot)
    × ((tf : Option Triple)
        → on_goal_received world "odom" (4, 2, 0) none robot
          ≡ on_goal_received world "map" (4, 2, 0) tf robot)
lost_frame-ignored_example =
    lost_frame-ignored world
      (λ p.
        let zero_plus : (n : ℕ) → (0 + n) ≡ n = λ n. omega arith in
        λ i. (zero_plus p.0 i, zero_plus p.1 i, zero_plus p.2 i))
      sequence "odom" "map" (4, 2, 0) robot refl

abbrev active : Action
active = record { kind = goal; is_canceling = false; feedback = []; result = none }

abbrev arrived : Server world
arrived = record {
  node = record robot { current_nav_ended_successfully = some true };
  actions = active ∷ active ∷ [];
}

poll_action-Outcome_example :
    ((poll_action world 1 arrived).node ≡ arrived.node)
    × (get_elem? (poll_action world 1 arrived).actions 1 ≡ some (poll world arrived.node active))
    × Outcome world arrived.node active (poll world arrived.node active).result
    × ((j : ℕ)
        → j ≢ 1
        → get_elem? (poll_action world 1 arrived).actions j ≡ get_elem? arrived.actions j)
poll_action-Outcome_example = poll_action-Outcome world arrived 1 active refl refl

abbrev finished : Server world
finished = record { node = robot; actions = record active { result = some success } ∷ active ∷ [] }

abbrev busy : List (Happening world)
busy = goal_requested (1, 1, 0) ∷ cancel_requested 0 ∷ quiet (timer none) ∷ polled 0 ∷ polled 1 ∷ []

happen_all-Ended_example : Ended world 0 success (happen_all world busy finished).actions
happen_all-Ended_example = happen_all-Ended world busy 0 success finished refl

abbrev drawn : Marker world
drawn = record { frame_id = "base_link"; points = (0, 1) ∷ (1, 1) ∷ [] }

log_to_margers-Drawn_example :
    (i : ℕ) × (d : ℕ) × (some 0 ≡ some i)
    × (i < 1)
    × (get_elem? (1 ∷ []) i ≡ some d)
    × (drawn.frame_id ≡ drawn.frame_id)
    × Drawn world idle i d drawn.points
unfolding log_to_margers line num_steps_to_draw path_points before_last smaller_size
log_to_margers-Drawn_example =
    log_to_margers-Drawn world "base_link" idle
      (record { n_ptgs = 1; selected = some 0; desired_direction = 1 ∷ [] }) {m = drawn} refl
