-- ===== src/Nav/Startup.antt =====
-- The start of `ReactiveNav2DNode`: `read_parameters` and the constructor. The publishers, actions and
-- subscriptions by name are left out, and so is the message about plugins that are not loaded.
pub mod Idle
use Prim.Native.String.{String}
use mrpt_navigation.Base.{
  ℕ, Bool, true, false, Option, none, some, List, [], ◌∷◌, Result, ok, err, ◌>>=◌, ◌>>◌, assert,
  nothing_to_rethrow, value_or, length, ◌==◌, is_empty, not, if◌then◌else◌, same_text,
}
use mrpt_navigation.Nav.Library.{Mrpt}
use mrpt_navigation.Nav.Node.{Node, Odometry}
use mrpt_navigation.Nav.Commands.{on_set_robot_shape}

-- The parameters that have been given to the node.
pub record RosParameters (Real : Type 0) : Type 0 where
  pub cfg_file_reactive : Option String
  pub target_allowed_distance : Option Real
  pub nav_period : Option Real
  pub frameid_reference : Option String
  pub frameid_robot : Option String
  pub topic_robot_shape : Option String
  pub save_nav_log : Option Bool
  pub pure_pursuit_mode : Option Bool
  pub ptg_plugin_files : Option String

module _ (mrpt : Mrpt) where
  open mrpt use {Real, ratio, positive, Points, no_points, Engine, change_shape}

  -- Files and the engine's configuration. `CConfigFile` and `loadConfigFile` may throw.
  pub record Configuration : Type 1 where
    pub no_odometry : Odometry mrpt
    pub new_engine : Engine
    pub load_plugins : String → Engine → Engine
    pub enable_log_file : Bool → Engine → Engine
    pub exists : String → Bool
    pub Config : Type 0
    pub config_file : String → Result Config
    pub load_config_file : Config → Engine → Result Engine
    pub read_vector : Config → String → List Real
    -- with the value where there is none
    pub read_double : Config → String → Real → Real
    pub minus_one : Real
    pub change_radius : Engine → Real → Engine

  module _ (library : Configuration) where
    open library use {
      no_odometry, new_engine, load_plugins, enable_log_file, exists, Config, config_file,
      load_config_file, read_vector, read_double, minus_one, change_radius,
    }

    -- What `read_parameters` sets, over the defaults of the members.
    unfoldable pub read_parameters : RosParameters Real → Node mrpt
    read_parameters p =
        let plugins = value_or p.ptg_plugin_files "" in
        record {
          initialized = false;
          target_allowed_distance = value_or p.target_allowed_distance (ratio 4 10);
          frame_reference = value_or p.frameid_reference "map";
          frame_robot = value_or p.frameid_robot "base_link";
          pure_pursuit_mode = value_or p.pure_pursuit_mode false;
          odometry = no_odometry;
          last_obstacles = no_points;
          current_nav_ended_successfully = none;
          rnav_engine =
              if same_text plugins "" then new_engine else load_plugins plugins new_engine;
          events = [];
          cmd_vel = [];
        }

    -- The corners, for lists of one length.
    corners : List Real → List Real → List (Real × Real)
    corners (x ∷ xs) (y ∷ ys) = (x, y) ∷ corners xs ys
    corners _ _ = []

    -- The shape from the file: a polygon, and then a circle.
    shape_of_config : Config → Engine → Result Engine
    unfolding corners
    shape_of_config c e =
        let xs = read_vector c "RobotModel_shape2D_xs" in
        let ys = read_vector c "RobotModel_shape2D_ys" in
        let e' = if is_empty xs then e else change_shape e (corners xs ys) in
        let radius = read_double c "RobotModel_circular_shape_radius" minus_one in
        assert (length xs == length ys)
        >> ok (if positive radius then change_radius e' radius else e')

    -- The shapes that arrive on a topic in the three seconds of waiting.
    shapes_received : List (List (Real × Real × Real)) → Node mrpt → Node mrpt
    unfolding on_set_robot_shape
    shapes_received [] n = n
    shapes_received (s ∷ ss) n = shapes_received ss (on_set_robot_shape mrpt s n)

    with_shape :
        RosParameters Real
        → List (List (Real × Real × Real))
        → String
        → Node mrpt
        → Result (Node mrpt)
    unfolding shape_of_config shapes_received
    with_shape p shapes file n =
        if same_text (value_or p.topic_robot_shape "") ""
        then (config_file file >>= λ c.
            shape_of_config c n.rnav_engine >>= λ e. ok (record n { rnav_engine = e }))
        else ok (shapes_received shapes n)

    -- The engine's configuration; without a file there is nothing to rethrow.
    configured : RosParameters Real → String → Node mrpt → Result (Node mrpt)
    configured p file n =
        let engine = enable_log_file (value_or p.save_nav_log false) n.rnav_engine in
        if same_text file ""
        then err nothing_to_rethrow
        else if not (exists file)
        then err nothing_to_rethrow
        else config_file file >>= λ c.
            load_config_file c engine >>= λ e. ok (record n { rnav_engine = e })

    -- The constructor, with the shapes that arrive while it waits for them.
    unfoldable pub new_reactive_nav :
        RosParameters Real → List (List (Real × Real × Real)) → Result (Node mrpt)
    unfolding read_parameters configured with_shape
    new_reactive_nav p shapes =
        let file = value_or p.cfg_file_reactive "reactive2d_config.ini" in
        assert (positive (value_or p.nav_period (ratio 1 10)))
        >> (configured p file (read_parameters p) >>= λ n. with_shape p shapes file n)
