-- ===== src/Examples/NavStart.antt =====
-- mrpt_reactivenav2d started from a file that has a polygon, and then run.
use Prim.Native.Nat.{ℕ}
use mrpt_navigation.Base.{
  true, false, none, some, List, [], ◌∷◌, ◌≡◌, refl, ok, err, ◌>>=◌, assertion_failed,
  nothing_to_rethrow, inr, same_text, if◌then◌else◌,
}
use mrpt_navigation.Nav.Library.{idle, navigating}
use mrpt_navigation.Nav.Node.{Node}
use mrpt_navigation.Nav.Node.Verdicts.{last_verdict}
use mrpt_navigation.Nav.Commands.Ended.{Quiet, on_all_quiet}
use mrpt_navigation.Nav.Startup.{RosParameters, Configuration, read_parameters, new_reactive_nav}
use mrpt_navigation.Nav.Startup.Idle.{IsStartable, new_reactive_nav-flag}
use mrpt_navigation.Examples.NavStates.{world}

abbrev files : Configuration world
files = record {
  no_odometry = record { pose = (0, 0, 0); vx = 0; vy = 0; omega = 0; has_velocities = false };
  new_engine = idle;
  load_plugins = λ s e. e;
  enable_log_file = λ b e. e;
  exists = λ s. same_text s "robot.ini";
  Config = ℕ;
  config_file = λ s. ok 4;
  load_config_file = λ c e. ok e;
  read_vector = λ c key. 1 ∷ c ∷ [];
  read_double = λ c key default. default;
  minus_one = 0;
  change_radius = λ r e. navigating;
}

-- As above, with one abscissa that has no ordinate.
abbrev ragged : Configuration world
ragged = record files {
  read_vector = λ c key. if same_text key "RobotModel_shape2D_xs" then 1 ∷ c ∷ [] else 1 ∷ [];
}

abbrev given : RosParameters ℕ
given = record {
  cfg_file_reactive = some "robot.ini";
  target_allowed_distance = none;
  nav_period = none;
  frameid_reference = none;
  frameid_robot = none;
  topic_robot_shape = none;
  save_nav_log = some true;
  pure_pursuit_mode = none;
  ptg_plugin_files = some "";
}

not_there :
    new_reactive_nav world files (record given { cfg_file_reactive = none }) []
    ≡ err nothing_to_rethrow
unfolding new_reactive_nav
not_there = refl

one_coordinate : new_reactive_nav world ragged given [] ≡ err assertion_failed
unfolding new_reactive_nav
one_coordinate = refl

frames : (new_reactive_nav world files given [] >>= λ n. ok n.frame_robot) ≡ ok "base_link"
unfolding new_reactive_nav
frames = refl

-- With a period and files as they should be.
abbrev startable : IsStartable world files given
unfolding read_parameters
startable = record {
  period = refl;
  named = refl;
  there = refl;
  config = 4;
  parsed = refl;
  engine = idle;
  loaded = refl;
  shape = inr refl;
}

new_reactive_nav-flag_example :
    (n : Node world) × (new_reactive_nav world files given [] ≡ ok n)
    × ((qs : List (Quiet world))
        → let m = on_all_quiet world qs n in
          m.current_nav_ended_successfully ≡ last_verdict m.events none)
new_reactive_nav-flag_example = new_reactive_nav-flag world files given [] startable
