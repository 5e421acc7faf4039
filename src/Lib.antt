-- ===== src/Lib.antt =====
-- A model of the core logic of mrpt_navigation, ROS 2 nodes around the MRPT libraries, with the
-- theorems that make it correct.
--
-- The parts, and how they interact. mrpt_pf_localization estimates the pose of the robot with a
-- particle filter: sensor observations go into a queue, and a timer calls `step`. mrpt_reactivenav2d
-- drives the robot: topics and actions command MRPT's reactive engine, which calls the node back, and
-- it takes its obstacles from mrpt_pointcloud_pipeline, which merges recent scans and clouds into
-- local maps. mrpt_tps_astar_planner plans the waypoints that it follows. mrpt_msgs_bridge converts
-- objects of MRPT to messages and back. mrpt_map_server publishes a map layer by layer, and
-- mrpt_rawlog turns recordings of ROS into those of MRPT and plays the latter. The nodes meet in ROS topics only.
--
-- The files:
-- Pf/ is `PFLocalizationCore`, mrpt_pf_localization/src/mrpt_pf_localization/
-- mrpt_pf_localization_core.cpp and its header mrpt_pf_localization_core.h. Pf/Library is what it
-- takes from MRPT, mp2p_icp, mola_relocalization and the YAML reader, all of it a parameter;
-- Pf/Parameters and Pf/Loading are `Parameters` and `load_from`, over the macros of Pf/Yaml and
-- the sections of Pf/FilterOptions, an exception as an error value;
-- Pf/State is `InternalState`, a null pointer or an empty `std::optional` being `none`; Pf/Queue is
-- `on_observation`, the two inspectors of the queue, and the loop that empties it; Pf/Initialize is
-- `onStateUninitialized` and `onStateToBeInitialized`, with Pf/Guess the pose and the region to start
-- from and `get_gnss_pose_prediction`; Pf/Running is `onStateRunning`, with Pf/Relocalization, its blocks as functions from core to core and result, composed in the order of
-- the code; Pf/Api is the public methods and sequences of calls of them. Pf/WellFormed is the
-- invariant that the code's pointer dereferences rest on. Pf/Window is the debug window, `init_gui` and
-- `update_gui`, with Pf/Estimate the estimate that it draws and Pf/Scene the objects of its scene.
-- Pf/Defaults is the parameters before a file is loaded.
-- PfNode/ is the ROS node around that core, mrpt_pf_localization/src/mrpt_pf_localization_node.cpp:
-- PfNode/Library is tf and the conversions of messages, a parameter; PfNode/Node is the node's state
-- and the callbacks of its subscriptions, PfNode/Twist the twist estimate and the odometry made from
-- it, PfNode/Publish the publications, and PfNode/Loop is `loop` with its stages, in their order.
-- PfNode/Parameters is the loop of `reload_params_from_ros` that nests the parameters of ROS by the
-- dots of their names, PfNode/Startup the rest of it and the constructor, and PfNode/LogLevel
-- `useROSLogLevel`. PfNode/Transforms, like Planner/Transforms and Nav/Transforms, is the node's own
-- function that waits for tf, with the callbacks that use it, over the buffer of Base/Tf.
-- Planner/ is mrpt_tps_astar_planner/src/mrpt_tps_astar_planner_node.cpp: Planner/Library is
-- mrpt_path_planning, a parameter; Planner/Node is the sources of obstacles and the callbacks that
-- fill them, Planner/Plan is `do_path_plan`, Planner/Services is the goal callback and the two
-- services, and Planner/Start the parameters, the constructor and `initialize_planner`.
-- Nav/ is mrpt_reactivenav2d/src/mrpt_reactivenav2d_node.cpp. Nav/Library has the engine as a
-- parameter that answers each call with the callbacks it makes; Nav/Node is the state of
-- `ReactiveNav2DNode` and `MyReactiveInterface`; Nav/Commands is the topic handlers and the timer;
-- Nav/Actions is the action interfaces: each accepted goal is a thread, and one turn of its loop is a
-- step of the server, so that any interleaving is a list of steps; Nav/Markers is `log_to_margers`; Nav/Startup is
-- the constructor and `read_parameters`.
-- Mission/ joins the planner and the navigation node: the waypoint sequence that the one publishes is
-- the one that the other gets. Mission/Obstacles joins the pipeline and the navigation node: the clouds
-- of the local map are its obstacles.
-- Pipeline/ is mrpt_pointcloud_pipeline/src/mrpt_pointcloud_pipeline_node.cpp: Pipeline/Local is the
-- sensor callbacks and the timer, Pipeline/Window its debug window, and Pipeline/Start
-- `read_parameters` and the constructor.
-- MapServer/ is mrpt_map_server/src/map_server_node.cpp: MapServer/Publish is `publish_map`, with the
-- publishers that it creates at their first use, MapServer/Services the three services, and
-- MapServer/Start is `init` and `loop`.
-- Rosbag/ is mrpt_rawlog/src/rosbag2rawlog.cpp: Rosbag/Convert is its conversions, Rosbag/Topics the
-- map from topics to callbacks, Rosbag/Transcriber the class `Transcriber`, Rosbag/Program is `main`,
-- and Rosbag/Synchronizer the class `RosSynchronizer`.
-- RawlogPlay/ is mrpt_rawlog/src/rawlog_play_node.cpp and rawlog_play_node_parameters.cpp:
-- RawlogPlay/Observations is `publishSingleObservation`, which converts beacons and landmarks by the
-- functions of Bridge/Sensors, RawlogPlay/Player is `nextEntry`, and RawlogPlay/Node is `init`, `loop`
-- and `main`.
-- Bridge/ is mrpt_msgs_bridge/src: Bridge/Graphs is network_of_poses.cpp, Bridge/Sensors is
-- beacon.cpp and landmark.cpp, and Bridge/Markers is marker_msgs.cpp.
-- Base/ has lists over the native numbers, results with exceptions, `std::map` and `std::multimap`.
-- Examples/ applies the theorems to small concrete libraries and inputs.
--
-- Bounds. Each loop of the code runs over a list or a count and is structural recursion, but for two.
-- The loop over the dots of a parameter's name has fuel, and one more than the name has characters is
-- enough. The loop of rawlog_play runs while ROS is up: its fuel is the number of rounds for which it is, and one more
-- than the rawlog has pairs is enough. `size_t` arithmetic that can wrap is written out modulo 2 ^ 64 in Nav/Markers, and the
-- `int16` feedback fields modulo 2 ^ 16 in Nav/Actions. `double` is a parameter with named operations
-- and no law. A mutex-protected section is one step. A callback of the
-- navigation engine publishes its event and sets the flag in one step, but in Nav/Commands/Ended, where
-- a command may come in between.
--
-- Not modelled: logs, profilers and ROS plumbing; the calls of `update_gui` in a step, since the
-- window is modelled apart; colours, fonts and angles of cameras in the debug
-- windows; the default values of MRPT's own parameters;
-- the filter, ICP, metric maps, tf and the reactive engine, which are libraries and stand as
-- parameters; the constructor of the parameters of rawlog_play, which is not built;
-- a core whose `init_from_yaml` has thrown, since the node dies with it; layers that are changed in a
-- map that is then refused; the shutdown of rclcpp; the command line of rosbag2rawlog.
pub mod Base
pub mod Pf
pub mod PfNode
pub mod Planner
pub mod Rosbag
pub mod RawlogPlay
pub mod MapServer
pub mod Nav
pub mod Bridge
pub mod Pipeline
pub mod Mission
pub mod Examples
