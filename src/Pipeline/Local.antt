-- ===== src/Pipeline/Local.antt =====
-- The callbacks of `LocalObstaclesNode` of mrpt_pointcloud_pipeline_node.cpp, without logs. The
-- debug window is Pipeline/Window.
-- Poses, maps and the mp2p_icp pipelines are parameters.
pub mod History
pub mod Topics
pub mod Poses
pub mod Maps
use Prim.Native.String.{String}
use mrpt_navigation.Base.{
  ℕ, Bool, true, false, ◌||◌, Option, none, some, List, [], ◌∷◌, ◌++◌, Result, ok, err, ◌>>=◌,
  or_throw, assertion_failed, transform_error, if◌then◌else◌, same_text, ◌==◌, is_empty,
}
use mrpt_navigation.Base.StdMap.{Key}
use mrpt_navigation.Base.StdMultimap.{add, from_lower_bound, last_key}

pub record Mrpt : Type 1 where
  -- seconds, a `double` that is a number
  pub Time : Type 0
  pub time_key : Key Time
  pub minus : Time → Time → Time
  pub Pose : Type 0
  -- `a - b`
  pub relative : Pose → Pose → Pose
  pub Obs : Type 0
  pub Scan : Type 0
  pub scan_time : Scan → Time
  pub obs_of_scan : Scan → Pose → Obs
  pub Cloud : Type 0
  pub cloud_time : Cloud → Time
  pub obs_of_cloud : Cloud → Pose → Obs
  pub Map : Type 0
  pub empty_map : Map
  -- `apply_generators(m_generator, ...)` and the two filter pipelines
  pub generate : Obs → Map → Map
  pub per_obs_filter : Map → Map
  pub final_filter : Map → Map
  pub Points : Type 0
  pub point_layer : Map → String → Option Points
  pub Simple : Type 0
  pub as_simple : Points → Option Simple

-- What the tf buffer answers: a pose, an `ExtrapolationException`, or another exception.
pub data Transform (Pose : Type 0) : Type 0 where
  found : Pose → Transform Pose
  extrapolation : Transform Pose
  other_exception : Transform Pose

module _ (mrpt : Mrpt) where
  open mrpt use {
    Time, time_key, minus, Pose, relative, Obs, Scan, scan_time, obs_of_scan, Cloud, cloud_time,
    obs_of_cloud, Map, empty_map, generate, per_obs_filter, final_filter, Points, point_layer,
    Simple, as_simple,
  }

  instance abbrev time_order : Key Time
  time_order = time_key

  pub record InfoPerTimeStep : Type 0 where
    pub source_topic : String
    pub observation : Obs
    pub robot_pose : Pose

  abbrev pub ObsList : Type 0
  ObsList = List (Time × InfoPerTimeStep)

  pub record LayerTopicNames : Type 0 where
    pub layer : String
    pub topic : String
    -- `get_subscription_count()`
    pub subscriptions : ℕ

  pub record Node : Type 0 where
    pub one_observation_per_topic : Bool
    pub frameid_robot : String
    pub time_window : Time
    pub hist_obs : ObsList
    pub layer2topic : List LayerTopicNames

  -- A `PointCloud2` on a topic.
  pub record Published : Type 0 where
    pub topic : String
    pub frame_id : String
    pub stamp : Time
    pub points : Simple

  insert_obs : Time → String → Obs → Pose → Node → Node
  insert_obs t topic obs pose n = record n {
    hist_obs =
        add t (record { source_topic = topic; observation = obs; robot_pose = pose }) n.hist_obs;
  }

  -- Every tf exception drops the message.
  pub on_new_sensor_laser_2d : Scan → String → Transform Pose → Transform Pose → Node → Node
  unfolding insert_obs
  on_new_sensor_laser_2d scan topic (found sensor) (found robot) n =
      insert_obs (scan_time scan) topic (obs_of_scan scan sensor) robot n
  on_new_sensor_laser_2d scan topic (found sensor) extrapolation n = n
  on_new_sensor_laser_2d scan topic (found sensor) other_exception n = n
  on_new_sensor_laser_2d scan topic extrapolation robot n = n
  on_new_sensor_laser_2d scan topic other_exception robot n = n

  pub on_new_sensor_pointcloud : Cloud → String → Transform Pose → Transform Pose → Node → Node
  unfolding insert_obs
  on_new_sensor_pointcloud pts topic (found sensor) (found robot) n =
      insert_obs (cloud_time pts) topic (obs_of_cloud pts sensor) robot n
  on_new_sensor_pointcloud pts topic (found sensor) extrapolation n = n
  on_new_sensor_pointcloud pts topic (found sensor) other_exception n = n
  on_new_sensor_pointcloud pts topic extrapolation robot n = n
  on_new_sensor_pointcloud pts topic other_exception robot n = n

  -- "Purge old obs"
  pub purged : Time → ObsList → ObsList
  purged window obs = elim (last_key obs) [
    | none ↦ obs
    | some last ↦ from_lower_bound (minus last window) obs
  ]

  pub found_before : String → List String → Bool
  found_before t [] = false
  found_before t (s ∷ ss) = same_text t s || found_before t ss

  -- The loop that erases an observation of a topic that it has met.
  keep_first : List String → ObsList → ObsList
  unfolding found_before
  keep_first met [] = []
  keep_first met ((t, ipt) ∷ obs) =
      let skipped = keep_first met obs in
      let kept = keep_first (ipt.source_topic ∷ met) obs in
      if found_before ipt.source_topic met then skipped else (t, ipt) ∷ kept

  pub one_per_topic : ObsList → ObsList
  unfolding keep_first
  one_per_topic obs = keep_first [] obs

  -- The loop over the observations: the relative pose is computed, and not used.
  build_map : Pose → ObsList → Map → Map
  build_map cur [] mm = mm
  build_map cur ((t, ipt) ∷ obs) mm =
      let rel_pose = relative ipt.robot_pose cur in
      build_map cur obs (per_obs_filter (generate ipt.observation mm))

  publish_layer : String → Time → Map → LayerTopicNames → Result Published
  publish_layer frame stamp mm e = do
    pts ← or_throw (point_layer mm e.layer) assertion_failed
    simple ← or_throw (as_simple pts) assertion_failed
    ok (record { topic = e.topic; frame_id = frame; stamp = stamp; points = simple })

  -- The loop over the layers: what was published before an exception stays published.
  publish_all : String → Time → Map → List LayerTopicNames → List Published × Result (Unit {0})
  unfolding publish_layer
  publish_all frame stamp mm [] = ([], ok tt)
  publish_all frame stamp mm (e ∷ es) =
      let rest = publish_all frame stamp mm es in
      if e.subscriptions == 0 then rest else elim (publish_layer frame stamp mm e) [
        | err x ↦ ([], err x)
        | ok p ↦ (p ∷ rest.0, rest.1)
      ]

  chosen : Node → ObsList → ObsList
  unfolding one_per_topic
  chosen n obs = if n.one_observation_per_topic then one_per_topic obs else obs

  -- The maps of the chosen observations.
  published : Node → ObsList → Transform Pose → List Published × Result (Unit {0})
  unfolding build_map publish_all
  published n obs (found cur) = elim (last_key obs) [
    | none ↦ ([], ok tt)
    | some last ↦
        publish_all n.frameid_robot last (final_filter (build_map cur obs empty_map)) n.layer2topic
  ]
  published n obs extrapolation = ([], ok tt)
  published n obs other_exception = if is_empty obs then ([], ok tt) else ([], err transform_error)

  pub on_do_publish : Transform Pose → Node → Node × List Published × Result (Unit {0})
  unfolding purged chosen published
  on_do_publish tf n =
      let hist = purged n.time_window n.hist_obs in
      let (clouds, r) = published n (chosen n hist) tf in (record n { hist_obs = hist }, clouds, r)
