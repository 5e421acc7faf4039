-- ===== src/Pipeline/Start.antt =====
-- The start of `LocalObstaclesNode`: `read_parameters` and the subscriptions of the constructor.
pub mod Paired
use Prim.Native.String.{String}
use mrpt_navigation.Base.{
  ℕ, ◌+◌, Bool, true, false, not, Option, none, some, List, [], ◌∷◌, ◌++◌, map, Result, ok, err,
  ◌>>=◌, ◌>>◌, assert, is_empty, value_or, length, ◌==◌, if◌then◌else◌,
}
use mrpt_navigation.Pipeline.Local.{Mrpt, Node, LayerTopicNames}

-- The parameters that have been given to the node. `show_gui` and `frameid_reference` are left out:
-- the first is for the debug window alone, the second only for messages of tf.
pub record RosParameters (Time : Type 0) : Type 0 where
  pub frameid_robot : Option String
  pub time_window : Option Time
  pub one_observation_per_topic : Option Bool
  pub publish_period : Option Time
  pub source_topics_2d_scans : Option String
  pub source_topics_pointclouds : Option String
  pub pipeline_yaml_file : Option String
  pub topic_local_map_pointcloud : Option String
  pub filter_output_layer_name : Option String

module _ (mrpt : Mrpt) where
  open mrpt use {Time}

  -- Numbers, files and texts, as MRPT and mp2p_icp have them.
  pub record Library : Type 1 where
    pub default_time_window : Time
    pub default_publish_period : Time
    pub at_most : Time → Time → Bool
    pub exists : String → Bool
    pub Config : Type 0
    pub from_file : String → Result Config
    pub has : Config → String → Bool
    pub Generators : Type 0
    pub generators_from : Config → Result Generators
    pub Filters : Type 0
    pub filters_from : Config → String → Result Filters
    -- the texts between the delimiters
    pub tokenize : String → String → List String

  module _ (library : Library) where
    open library use {
      default_time_window, default_publish_period, at_most, exists, Config, from_file, has,
      Generators, generators_from, Filters, filters_from, tokenize,
    }

    pub record Pipelines : Type 0 where
      pub generator : Generators
      pub per_obs_pipeline : Filters
      pub final_pipeline : Filters

    read_pipelines : String → Result Pipelines
    read_pipelines file = do
      assert (exists file)
      cfg ← from_file file
      assert (has cfg "generators")
      assert (has cfg "per_observation")
      assert (has cfg "final")
      generator ← generators_from cfg
      per_observation ← filters_from cfg "per_observation"
      final ← filters_from cfg "final"
      ok (record {
        generator = generator;
        per_obs_pipeline = per_observation;
        final_pipeline = final;
      })

    -- The loop over both lists, which have one length; nobody subscribes yet.
    layer_topics : List String → List String → List (LayerTopicNames mrpt)
    layer_topics (l ∷ ls) (t ∷ ts) =
        record { layer = l; topic = t; subscriptions = 0 } ∷ layer_topics ls ts
    layer_topics _ _ = []

    -- The node, its pipelines, its publishing period, the topics that it subscribes to, and whether
    -- ROS has been shut down for want of them.
    pub record Started : Type 0 where
      pub node : Node mrpt
      pub pipelines : Pipelines
      pub publish_period : Time
      pub topics_2d_scans : List String
      pub topics_pointclouds : List String
      pub shut_down : Bool

    abbrev pub output_layers : RosParameters Time → List String
    output_layers p = tokenize ", \t\r\n" (value_or p.filter_output_layer_name "output")

    abbrev pub output_topics : RosParameters Time → List String
    output_topics p =
        tokenize ", \t\r\n" (value_or p.topic_local_map_pointcloud "local_map_pointcloud")

    -- `read_parameters`: the pipelines and the node with its outputs, without observations.
    read_parameters : RosParameters Time → Result (Pipelines × Node mrpt)
    unfolding read_pipelines layer_topics
    read_parameters p =
        let window = value_or p.time_window default_time_window in
        assert (at_most (value_or p.publish_period default_publish_period) window)
        >> (read_pipelines (value_or p.pipeline_yaml_file "") >>= λ pipelines.
            assert (length (output_layers p) == length (output_topics p))
            >> ok (
              pipelines,
              record {
                one_observation_per_topic = value_or p.one_observation_per_topic false;
                frameid_robot = value_or p.frameid_robot "base_link";
                time_window = window;
                hist_obs = [];
                layer2topic = layer_topics (output_layers p) (output_topics p);
              },
            ))

    -- The topics subscribed to, and their number.
    subscribe_to_multiple_topics : String → List String × ℕ
    subscribe_to_multiple_topics topics =
        let sources = tokenize " ,\t\n" topics in
        if is_empty sources then ([], 0) else (sources, length sources)

    -- The constructor. Its topics are read with other delimiters than the outputs.
    pub new_local_obstacles : RosParameters Time → Result Started
    unfolding read_parameters subscribe_to_multiple_topics
    new_local_obstacles p = read_parameters p >>= λ (pipelines, node).
        let scans =
          subscribe_to_multiple_topics (value_or p.source_topics_2d_scans "scan, laser1") in
        let clouds = subscribe_to_multiple_topics (value_or p.source_topics_pointclouds "") in
        ok (record {
          node = node;
          pipelines = pipelines;
          publish_period = value_or p.publish_period default_publish_period;
          topics_2d_scans = scans.0;
          topics_pointclouds = clouds.0;
          shut_down = scans.1 + clouds.1 == 0;
        })
