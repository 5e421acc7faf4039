-- ===== src/Pipeline/Start/Paired.antt =====
-- What a pipeline node that has started is like.
use Prim.Native.String.{String}
use mrpt_navigation.Base.{
  ◌+◌, true, List, [], ◌∷◌, ◌++◌, map, Result, ok, err, ◌≡◌, refl, ap, arith, inl, inr, Bool-cases,
  Result-cases, is_empty, value_or, length, ◌==◌,
}
use mrpt_navigation.Pipeline.Local.{Mrpt, LayerTopicNames}
use mrpt_navigation.Pipeline.Start.{
  RosParameters, Library, read_pipelines, layer_topics, Started, output_layers, output_topics,
  subscribe_to_multiple_topics, read_parameters, new_local_obstacles,
}

module _ (mrpt : Mrpt) (library : Library mrpt) where
  open mrpt use {Time}
  open library use {at_most}

  -- The outputs are the layers and the topics, pair by pair.
  abbrev pub IsPaired : List String → List String → List (LayerTopicNames mrpt) → Type 0
  IsPaired ls ts outputs = (map (λ e. e.layer) outputs ≡ ls) × (map (λ e. e.topic) outputs ≡ ts)

  layer_topics-IsPaired :
      (ls ts : List String)
      → (length ls == length ts) ≡ true
      → IsPaired ls ts (layer_topics mrpt library ls ts)
  unfolding layer_topics
  layer_topics-IsPaired [] [] same = (refl, refl)
  layer_topics-IsPaired [] (t ∷ ts) same = ground (arith, same)
  layer_topics-IsPaired (l ∷ ls) [] same = ground (arith, same)
  layer_topics-IsPaired (l ∷ ls) (t ∷ ts) same =
      let (layers, topics) = layer_topics-IsPaired ls ts (ground (arith, same)) in
      (ap (λ r. l ∷ r) layers, ap (λ r. t ∷ r) topics)

  -- A result that, if it is no exception, is a node whose outputs are paired, whose window has room
  -- for a period, which has no observation, and which goes on exactly if it has a topic.
  abbrev pub HasStarted : RosParameters Time → Result (Started mrpt library) → Type 0
  HasStarted p (err e) = Unit
  HasStarted p (ok n) =
      IsPaired (output_layers mrpt library p) (output_topics mrpt library p) n.node.layer2topic
      × (at_most n.publish_period n.node.time_window ≡ true)
      × (n.node.hist_obs ≡ [])
      × (n.shut_down ≡ is_empty (n.topics_2d_scans ++ n.topics_pointclouds))

  subscribe_to_multiple_topics-length :
      (topics : String)
      → let subscribed = subscribe_to_multiple_topics mrpt library topics in
        subscribed.1 ≡ length subscribed.0
  unfolding subscribe_to_multiple_topics
  subscribe_to_multiple_topics-length topics =
      elim (Bool-cases (is_empty (library.tokenize " ,\t\n" topics))) [
        | inl nothing ↦ rw (nothing, subscribe_to_multiple_topics) refl
        | inr topic ↦ rw (topic, subscribe_to_multiple_topics) refl
      ]

  no_texts : (xs ys : List String) → (length xs + length ys == 0) ≡ is_empty (xs ++ ys)
  no_texts [] [] = ground arith
  no_texts [] (y ∷ ys) = ground arith
  no_texts (x ∷ xs) ys = ground arith

  no_topics :
      (scans clouds : String)
      → let s = subscribe_to_multiple_topics mrpt library scans in
        let c = subscribe_to_multiple_topics mrpt library clouds in
        (s.1 + c.1 == 0) ≡ is_empty (s.0 ++ c.0)
  no_topics scans clouds =
      rw (subscribe_to_multiple_topics-length scans, subscribe_to_multiple_topics-length clouds)
        (no_texts _ _)

  -- A pipeline node that has started without an exception publishes the i-th output layer on the
  -- i-th topic, for every layer and every topic, has a window no shorter than its publishing period
  -- and no observation yet; it has shut ROS down exactly if it has no topic to listen to.
  pub new_local_obstacles-HasStarted :
      (p : RosParameters Time) → HasStarted p (new_local_obstacles mrpt library p)
  unfolding new_local_obstacles read_parameters
  new_local_obstacles-HasStarted p =
      elim (Bool-cases (
        at_most (value_or p.publish_period library.default_publish_period)
          (value_or p.time_window library.default_time_window))) [
            | inr late ↦ rw (late, new_local_obstacles, read_parameters) tt
            | inl fits ↦
                elim (Result-cases
                  (read_pipelines mrpt library (value_or p.pipeline_yaml_file ""))) [
                    | inr (e, fails) ↦ rw (fits, new_local_obstacles, read_parameters, fails) tt
                    | inl (pipelines, read) ↦
                        elim (Bool-cases (
                          length (output_layers mrpt library p)
                          == length (output_topics mrpt library p))) [
                            | inr unpaired ↦
                                rw (fits, new_local_obstacles, read_parameters, read, unpaired) tt
                            | inl paired ↦
                                rw (fits, new_local_obstacles, read_parameters, read, paired)
                                  (layer_topics-IsPaired _ _ paired, fits, refl, no_topics _ _)
                          ]
                  ]
          ]
