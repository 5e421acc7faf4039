-- ===== src/PfNode/Startup.antt =====
-- The start of `PFLocalizationNode`: its own parameters, those of the core, and the subscriptions
-- and timers that the constructor creates. QoS and publishers are left out.
pub mod CreatedNodes
pub mod Alive
use Prim.Native.String.{String}
use mrpt_navigation.Base.{
  ℕ, Bool, true, false, Option, none, some, List, [], ◌∷◌, ◌++◌, map, Result, ok, err, ◌>>=◌, ◌>>◌,
  assert, or_throw, missing_key, bad_cast, is_empty, not, if◌then◌else◌,
}
use mrpt_navigation.Pf.Library.{Mrpt}
use mrpt_navigation.Pf.Yaml.{optional, child}
use mrpt_navigation.Pf.State.{Core}
use mrpt_navigation.Pf.Api.{init_from_yaml}
use mrpt_navigation.PfNode.Library.{Ros}
use mrpt_navigation.PfNode.Parameters.{Numbers, ParameterValue, YamlMap, empty, params_block}

module _ (mrpt : Mrpt) (ros : Ros mrpt) where
  open mrpt use {Real, Node, has, at, as_real, as_text, ratio, times, over, round}
  open ros use {less}

  pub record NodeParameters : Type 0 where
    pub rate_hz : Real
    pub transform_tolerance : Real
    pub no_update_tolerance : Real
    pub no_inputs_tolerance : Real
    pub base_link_frame_id : String
    pub odom_frame_id : String
    pub global_frame_id : String
    pub topic_map : String
    pub topic_initialpose : String
    pub topic_odometry : String
    pub pub_topic_particles : String
    pub pub_topic_pose : String
    pub topic_sensors_2d_scan : String
    pub topic_sensors_point_clouds : String
    pub topic_gnss : String

  abbrev pub default_parameters : NodeParameters
  default_parameters = record {
    rate_hz = ratio 2 1;
    transform_tolerance = ratio 1 10;
    no_update_tolerance = ratio 1 1;
    no_inputs_tolerance = ratio 2 1;
    base_link_frame_id = "base_link";
    odom_frame_id = "odom";
    global_frame_id = "map";
    topic_map = "/mrpt_map/metric_map";
    topic_initialpose = "/initialpose";
    topic_odometry = "/odom";
    pub_topic_particles = "/particlecloud";
    pub_topic_pose = "/pf_pose";
    topic_sensors_2d_scan = "";
    topic_sensors_point_clouds = "";
    topic_gnss = "/gps";
  }

  load_node_parameters : Node → NodeParameters → Result NodeParameters
  unfolding optional
  load_node_parameters cfg p = do
    rate ← optional mrpt as_real cfg "rate_hz" p.rate_hz
    tolerance ← optional mrpt as_real cfg "transform_tolerance" p.transform_tolerance
    no_update ← optional mrpt as_real cfg "no_update_tolerance" p.no_update_tolerance
    no_inputs ← optional mrpt as_real cfg "no_inputs_tolerance" p.no_inputs_tolerance
    base ← optional mrpt as_text cfg "base_link_frame_id" p.base_link_frame_id
    odom ← optional mrpt as_text cfg "odom_frame_id" p.odom_frame_id
    global ← optional mrpt as_text cfg "global_frame_id" p.global_frame_id
    map_topic ← optional mrpt as_text cfg "topic_map" p.topic_map
    initialpose ← optional mrpt as_text cfg "topic_initialpose" p.topic_initialpose
    odometry ← optional mrpt as_text cfg "topic_odometry" p.topic_odometry
    particles ← optional mrpt as_text cfg "pub_topic_particles" p.pub_topic_particles
    pose ← optional mrpt as_text cfg "pub_topic_pose" p.pub_topic_pose
    scans ← optional mrpt as_text cfg "topic_sensors_2d_scan" p.topic_sensors_2d_scan
    clouds ← optional mrpt as_text cfg "topic_sensors_point_clouds" p.topic_sensors_point_clouds
    gnss ← optional mrpt as_text cfg "topic_gnss" p.topic_gnss
    ok (record {
      rate_hz = rate;
      transform_tolerance = tolerance;
      no_update_tolerance = no_update;
      no_inputs_tolerance = no_inputs;
      base_link_frame_id = base;
      odom_frame_id = odom;
      global_frame_id = global;
      topic_map = map_topic;
      topic_initialpose = initialpose;
      topic_odometry = odometry;
      pub_topic_particles = particles;
      pub_topic_pose = pose;
      topic_sensors_2d_scan = scans;
      topic_sensors_point_clouds = clouds;
      topic_gnss = gnss;
    })

  -- The YAML library on the tree of parameters and on files, and `mrpt::system::tokenize`.
  pub record Files (numbers : Numbers) : Type 0 where
    pub of_block : YamlMap numbers → Node
    pub empty_config : Node
    pub load_file : String → Result Node
    pub tokenize : String → List String

  module _ (numbers : Numbers) (files : Files numbers) where
    open files use {of_block, empty_config, load_file, tokenize}

    -- `relocalizationCfg`
    pub relocalization_config : Node → Result Node
    unfolding child
    relocalization_config block =
        if has block "relocalization_params_file"
        then (child mrpt block "relocalization_params_file" >>= λ n.
            or_throw (as_text n) bad_cast >>= λ name. load_file name)
        else ok empty_config

    -- The core and the node take their parameters from one block.
    with_block : Core mrpt → NodeParameters → Node → Result (Core mrpt × NodeParameters)
    unfolding relocalization_config init_from_yaml load_node_parameters
    with_block c p block = relocalization_config block >>= λ config.
        init_from_yaml mrpt block config c >>= λ core.
        load_node_parameters block p >>= λ params. ok (core, params)

    unfoldable pub reload_params_from_ros :
        List (String × ParameterValue numbers)
        → Core mrpt
        → NodeParameters
        → Option (Result (Core mrpt × NodeParameters))
    unfolding params_block with_block
    reload_params_from_ros ps c p = elim (params_block numbers ps empty) [
      | none ↦ none
      | some (err e) ↦ some (err e)
      | some (ok block) ↦ some (with_block c p (of_block block))
    ]

    pub data Subscription : Type 0 where
      initialpose map_object odometry gnss : String → Subscription
      laser points : String → Subscription

    pub record Created : Type 0 where
      pub core : Core mrpt
      pub params : NodeParameters
      pub subscriptions : List Subscription
      -- the periods of the timers of `loop` and of `publishTF`, in microseconds
      pub loop_period : ℕ
      pub tf_period : ℕ

    -- The subscriptions and the timers, with the two assertions.
    create : Core mrpt → NodeParameters → Result Created
    create c p =
        let scans = tokenize p.topic_sensors_2d_scan in
        let clouds = tokenize p.topic_sensors_point_clouds in
        assert (not (is_empty (scans ++ clouds)))
        >> assert (less (ratio 1 1000) p.transform_tolerance)
        >> ok (record {
          core = c;
          params = p;
          subscriptions =
              (initialpose p.topic_initialpose
                ∷ map_object p.topic_map
                ∷ odometry p.topic_odometry
                ∷ [])
              ++ map laser scans
              ++ map points clouds
              ++ gnss p.topic_gnss ∷ [];
          loop_period = round (over (ratio 1000000 1) p.rate_hz);
          tf_period = round (times (times (ratio 1 2) (ratio 1000000 1)) p.transform_tolerance);
        })

    -- The constructor of the node, on a core as it is built.
    unfoldable pub new_localization_node :
        List (String × ParameterValue numbers) → Core mrpt → Option (Result Created)
    unfolding reload_params_from_ros create
    new_localization_node ps c = elim (reload_params_from_ros ps c default_parameters) [
      | none ↦ none
      | some (err e) ↦ some (err e)
      | some (ok loaded) ↦ some (create loaded.0 loaded.1)
    ]
