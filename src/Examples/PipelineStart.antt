-- ===== src/Examples/PipelineStart.antt =====
-- A pipeline node with one output and two topics.
use Prim.Native.Nat.{ℕ}
use Prim.Native.String.{String}
use mrpt_navigation.Base.{true, none, some, [], ◌∷◌, ok, leb, if◌then◌else◌, same_text}
use mrpt_navigation.Pipeline.Start.{RosParameters, Library, new_local_obstacles}
use mrpt_navigation.Pipeline.Start.Paired.{HasStarted, new_local_obstacles-HasStarted}
use mrpt_navigation.Examples.PipelineWindow.{rig}

-- Times are milliseconds, and every file is there and has every section.
abbrev library : Library rig
library = record {
  default_time_window = 200;
  default_publish_period = 50;
  at_most = leb;
  exists = λ name. true;
  Config = ℕ;
  from_file = λ name. ok 0;
  has = λ c key. true;
  Generators = ℕ;
  generators_from = λ c. ok 1;
  Filters = String;
  filters_from = λ c key. ok key;
  tokenize = λ d s. if same_text s "" then [] else s ∷ [];
}

abbrev given : RosParameters ℕ
given = record {
  frameid_robot = none;
  time_window = some 300;
  one_observation_per_topic = some true;
  publish_period = none;
  source_topics_2d_scans = some "laser";
  source_topics_pointclouds = some "lidar";
  pipeline_yaml_file = some "pipeline.yaml";
  topic_local_map_pointcloud = none;
  filter_output_layer_name = none;
}

new_local_obstacles-HasStarted_example :
    HasStarted rig library given (new_local_obstacles rig library given)
new_local_obstacles-HasStarted_example = new_local_obstacles-HasStarted rig library given
