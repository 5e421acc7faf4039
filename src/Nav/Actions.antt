-- ===== src/Nav/Actions.antt =====
-- The action interfaces NavigateGoal and NavigateWaypoints of mrpt_reactivenav2d_node.cpp: each
-- accepted goal has a thread that looks at the node once a second.
pub mod Outcomes
pub mod Final
use mrpt_navigation.Base.{
  ℕ, zero, suc, ◌+◌, ◌^◌, ◌%◌, Bool, true, false, not, ◌&&◌, ◌||◌, Option, none, some, List, [],
  ◌∷◌, ◌++◌, if◌then◌else◌,
}
use mrpt_navigation.Nav.Library.{Mrpt, NavState, nav_error, idle, navigating, suspended}
use mrpt_navigation.Nav.Node.{Node}
use mrpt_navigation.Nav.Commands.{
  WaypointSequence, navigate_to, update_waypoint_sequence, handle_cancel,
}

-- NavigationFinalStatus.msg
pub data Status : Type 0 where
  success error cancelled : Status

-- NavigationFeedback.msg: the bits of two `int16`
pub record Feedback : Type 0 where
  pub total_waypoints : ℕ
  pub reached_waypoints : ℕ

pub data Kind : Type 0 where
  goal waypoints : Kind

-- An accepted goal: its handle, and how its thread ended, if it did.
pub record Action : Type 0 where
  pub kind : Kind
  pub is_canceling : Bool
  pub feedback : List Feedback
  pub result : Option Status

pub is_error : NavState → Bool
is_error nav_error = true
is_error _ = false

pub is_false : Option Bool → Bool
is_false (some false) = true
is_false _ = false

pub is_true : Option Bool → Bool
is_true (some true) = true
is_true _ = false

module _ (mrpt : Mrpt) where
  open mrpt use {
    Pose3, current_state, num_waypoints, index_current_goal, final_goal_reached, pose2, x, y, yaw,
  }

  -- `navState == NAV_ERROR || (curNavEnded.has_value() && *curNavEnded == false)`
  pub has_failed : Node mrpt → Bool
  unfolding is_error is_false
  has_failed n = is_error (current_state n.rnav_engine) || is_false n.current_nav_ended_successfully

  pub feedback_of : Kind → Node mrpt → Feedback
  feedback_of goal n = record { total_waypoints = 1; reached_waypoints = 0 }
  feedback_of waypoints n = record {
    total_waypoints = num_waypoints n.rnav_engine % 2 ^ 16;
    reached_waypoints = index_current_goal n.rnav_engine % 2 ^ 16;
  }

  pub has_arrived : Kind → Node mrpt → Bool
  unfolding is_true
  has_arrived goal n = is_true n.current_nav_ended_successfully
  has_arrived waypoints n = final_goal_reached n.rnav_engine

  -- One turn of the loops of `execute_action_goal` and `execute_action_wp`, with `rclcpp::ok()`.
  pub poll : Node mrpt → Action → Action
  unfolding has_failed feedback_of has_arrived
  poll n a =
      if a.is_canceling
      then record a { result = some cancelled }
      else if has_failed n
      then record a { result = some error }
      else record a {
        feedback = a.feedback ++ feedback_of a.kind n ∷ [];
        result = if has_arrived a.kind n then some success else none;
      }

  -- A thread that has ended looks no more.
  pub poll_if_active : Node mrpt → Action → Action
  unfolding poll
  poll_if_active n a = elim a.result [ none ↦ poll n a | some _ ↦ a ]

  pub accepted : Kind → Action
  accepted k = record { kind = k; is_canceling = false; feedback = []; result = none }

  -- The node with the goals it has accepted, the first one first.
  pub record Server : Type 0 where
    pub node : Node mrpt
    pub actions : List Action

  pub update_at : (Action → Action) → ℕ → List Action → List Action
  update_at f i [] = []
  update_at f zero (a ∷ rest) = f a ∷ rest
  update_at f (suc i) (a ∷ rest) = a ∷ update_at f i rest

  -- `handle_goal`, `handle_accepted` and the start of `execute_action_goal`: the frame of the
  -- target is not read. A goal that is active goes on.
  pub accept_goal : Pose3 → Server → Server
  unfolding accepted
  accept_goal target s = record {
    node = navigate_to mrpt (pose2 (x target) (y target) (yaw target)) s.node;
    actions = s.actions ++ accepted goal ∷ [];
  }

  -- `handle_goal_wp`, `handle_accepted_wp` and the start of `execute_action_wp`.
  pub accept_waypoints : WaypointSequence mrpt → Option Pose3 → Server → Server
  unfolding accepted
  accept_waypoints msg tf s = record {
    node = update_waypoint_sequence mrpt msg tf s.node;
    actions = s.actions ++ accepted waypoints ∷ [];
  }

  canceling : Action → Action
  canceling a = record a { is_canceling = true }

  -- A cancel request for an action: the engine is told to cancel, whichever goal it is on.
  pub request_cancel : ℕ → Server → Server
  unfolding canceling
  request_cancel i s = record {
    node = handle_cancel mrpt s.node;
    actions = update_at canceling i s.actions;
  }

  pub poll_action : ℕ → Server → Server
  unfolding poll_if_active
  poll_action i s = record s { actions = update_at (poll_if_active s.node) i s.actions }
