-- ===== src/Nav/Commands/Ended.antt =====
-- The flag `currentNavEndedSuccessfully_` and the published events.
use mrpt_navigation.Base.{
  Bool, Option, none, some, List, [], ◌∷◌, ◌++◌, ◌≡◌, refl, sym, arith, append-nil, map,
}
use mrpt_navigation.Nav.Library.{Mrpt, Callback}
use mrpt_navigation.Nav.Node.{Event, Node, Odometry, set_ended, on_callbacks}
use mrpt_navigation.Nav.Node.Verdicts.{
  last_verdict, Agrees, engine_call-Agrees, on_callbacks-Agrees,
}
use mrpt_navigation.Nav.Commands.{
  WaypointSequence, navigate_to, new_command, tell_target, tell_waypoints, goal_pose, waypoint_of,
  relative_pose, update_waypoint_sequence, on_waypoint_seq_received, on_goal_received,
  on_odometry_received, on_local_obstacles, on_set_robot_shape, set_pure_pursuit_mode,
  initialized_once, on_do_navigation, handle_cancel,
}
use Prim.Native.String.{String}

module _ (mrpt : Mrpt) where
  open mrpt use {flatten, Real, Pose2, Pose3, Cloud}

  -- The messages and timers that command nothing new.
  pub data Quiet : Type 0 where
    odometry_received : Odometry mrpt → Quiet
    obstacles_received : Cloud → Quiet
    shape_received : List (Real × Real × Real) → Quiet
    pure_pursuit_set : Bool → Quiet
    timer : Option Pose2 → Quiet
    cancel_requested : Quiet

  -- The commands that start a navigation.
  pub data Command : Type 0 where
    goal_received : String → Pose3 → Option Pose3 → Command
    waypoints_received : WaypointSequence mrpt → Option Pose3 → Command
    goal_accepted : Pose2 → Command

  pub on_command : Command → Node mrpt → Node mrpt
  on_command (goal_received frame target tf) n = on_goal_received mrpt frame target tf n
  on_command (waypoints_received msg tf) n = on_waypoint_seq_received mrpt msg tf n
  on_command (goal_accepted target) n = navigate_to mrpt target n

  pub on_quiet : Quiet → Node mrpt → Node mrpt
  on_quiet (odometry_received o) n = on_odometry_received mrpt o n
  on_quiet (obstacles_received c) n = on_local_obstacles mrpt c n
  on_quiet (shape_received ps) n = on_set_robot_shape mrpt ps n
  on_quiet (pure_pursuit_set b) n = set_pure_pursuit_mode mrpt b n
  on_quiet (timer pose) n = (on_do_navigation mrpt pose n).0
  on_quiet cancel_requested n = handle_cancel mrpt n

  pub on_all_quiet : List Quiet → Node mrpt → Node mrpt
  on_all_quiet [] n = n
  on_all_quiet (q ∷ qs) n = on_all_quiet qs (on_quiet q n)

  fresh-Agrees : (n : Node mrpt) → Agrees mrpt n.events none (new_command mrpt n)
  unfolding new_command
  fresh-Agrees n = ([], sym (append-nil n.events), refl)

  -- The rest of an engine call that was under way: of a callback that has published an end, but not
  -- set the flag (`late`), and of the callbacks after it.
  pub under_way : Option Bool → List (Callback Real) → Node mrpt → Node mrpt
  under_way none rest n = on_callbacks mrpt rest n
  under_way (some ok) rest n = on_callbacks mrpt rest (set_ended mrpt ok n)

  under_way-Agrees :
      (late : Option Bool) (rest : List (Callback Real)) (n : Node mrpt)
      → Agrees mrpt n.events late (under_way late rest (new_command mrpt n))
  unfolding under_way new_command set_ended
  under_way-Agrees none rest n = on_callbacks-Agrees mrpt n.events none rest _ (fresh-Agrees n)
  under_way-Agrees (some ok) rest n =
      on_callbacks-Agrees mrpt n.events (some ok) rest _ ([], sym (append-nil n.events), refl)

  -- The second section of a command that came at `n`, at whatever the node is by then.
  pub tells : Command → Node mrpt → Node mrpt → Node mrpt
  tells (goal_received frame target tf) n m =
      tell_target mrpt (flatten (goal_pose mrpt frame target tf n)) m
  tells (waypoints_received msg tf) n m =
      tell_waypoints mrpt
        (map (waypoint_of mrpt (relative_pose mrpt msg.frame_id tf n)) msg.waypoints) m
  tells (goal_accepted target) n m = tell_target mrpt target m

  on_command-tells : (k : Command) (n : Node mrpt) → on_command k n ≡ tells k n (new_command mrpt n)
  unfolding on_command tells on_goal_received on_waypoint_seq_received update_waypoint_sequence
      navigate_to
  on_command-tells (goal_received frame target tf) n = refl
  on_command-tells (waypoints_received msg tf) n = refl
  on_command-tells (goal_accepted target) n = refl

  tells-Agrees :
      (old : List Event) (before : Option Bool) (k : Command) (n m : Node mrpt)
      → Agrees mrpt old before m
      → Agrees mrpt old before (tells k n m)
  unfolding tells tell_target tell_waypoints
  tells-Agrees old before (goal_received frame target tf) n m a =
      engine_call-Agrees mrpt old before _ m a
  tells-Agrees old before (waypoints_received msg tf) n m a =
      engine_call-Agrees mrpt old before _ m a
  tells-Agrees old before (goal_accepted target) n m a = engine_call-Agrees mrpt old before _ m a

  initialized_once-Agrees :
      (old : List Event) (before : Option Bool) (n : Node mrpt)
      → Agrees mrpt old before n
      → Agrees mrpt old before (initialized_once mrpt n)
  unfolding initialized_once
  initialized_once-Agrees old before n (new, a, b) = (new, ground arith, ground arith)

  on_quiet-Agrees :
      (old : List Event) (before : Option Bool) (q : Quiet) (n : Node mrpt)
      → Agrees mrpt old before n
      → Agrees mrpt old before (on_quiet q n)
  unfolding on_quiet on_odometry_received on_local_obstacles on_set_robot_shape
      set_pure_pursuit_mode on_do_navigation handle_cancel
  on_quiet-Agrees old before (odometry_received o) n a = a
  on_quiet-Agrees old before (obstacles_received c) n a = a
  on_quiet-Agrees old before (shape_received ps) n a = a
  on_quiet-Agrees old before (pure_pursuit_set b) n a = a
  on_quiet-Agrees old before (timer pose) n a =
      engine_call-Agrees mrpt old before _ (initialized_once mrpt n)
        (initialized_once-Agrees old before n a)
  on_quiet-Agrees old before cancel_requested n a = engine_call-Agrees mrpt old before _ n a

  pub on_all_quiet-Agrees :
      (old : List Event) (before : Option Bool) (qs : List Quiet) (n : Node mrpt)
      → Agrees mrpt old before n
      → Agrees mrpt old before (on_all_quiet qs n)
  unfolding on_all_quiet
  on_all_quiet-Agrees old before [] n a = a
  on_all_quiet-Agrees old before (q ∷ qs) n a =
      on_all_quiet-Agrees old before qs (on_quiet q n) (on_quiet-Agrees old before q n a)

  -- A command resets the flag that the actions poll, maybe while an engine call is under way, of
  -- which callbacks (`rest`) are still to come, and before them maybe the flag of an end that has
  -- been published (`late`). It then, maybe after other messages and timers (`between`), tells the
  -- engine; more follow. When no callback is under way any more, the flag is the verdict of the last
  -- event published since the reset that ends a navigation, and without one it is `late`, or unset.
  -- So an earlier navigation's end counts exactly if its flag is set after the reset. With nothing
  -- under way and in between, this is the handler of the command.
  pub ended_flag-since_command :
      (k : Command) (late : Option Bool) (rest : List (Callback Real)) (between qs : List Quiet)
      (n : Node mrpt)
      → let reset = under_way late rest (new_command mrpt n) in
        let m = on_all_quiet qs (tells k n (on_all_quiet between reset)) in
        ((new : List Event) × (m.events ≡ n.events ++ new)
          × (m.current_nav_ended_successfully ≡ last_verdict new late))
        × (on_command k n ≡ tells k n (new_command mrpt n))
  ended_flag-since_command k late rest between qs n = (
    on_all_quiet-Agrees n.events late qs _ (
        tells-Agrees n.events late k n _
          (on_all_quiet-Agrees n.events late between _ (under_way-Agrees late rest n))),
    on_command-tells k n,
  )
