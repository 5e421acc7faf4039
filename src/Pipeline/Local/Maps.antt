-- ===== src/Pipeline/Local/Maps.antt =====
-- The local maps that `on_do_publish` publishes, described from the history.
use Prim.Native.String.{String}
use mrpt_navigation.Base.{
  Bool, true, not, ◌&&◌, Option, none, some, List, [], ◌∷◌, ok, ◌≡◌, refl, sym, ap, ◌∙◌, ◌==◌,
  arith, Bool-cases, Option-cases, inl, inr, has_value, if◌then◌else◌,
}
use mrpt_navigation.Base.StdMap.{Key}
use mrpt_navigation.Base.StdMultimap.{last_key}
use mrpt_navigation.Pipeline.Local.{
  Mrpt, found, ObsList, Node, LayerTopicNames, Published, one_per_topic, purged, build_map,
  publish_layer, publish_all, chosen, published, on_do_publish,
}
use mrpt_navigation.Pipeline.Local.History.{Event, on_events, in_window, on_do_publish-history}

module _ (mrpt : Mrpt) where
  open mrpt use {
    Time, time_key, Pose, Obs, Map, empty_map, generate, per_obs_filter, final_filter, Points,
    point_layer, Simple, as_simple,
  }

  instance abbrev order : Key Time
  order = time_key

  -- The observations that a map is made of: those in the time window, or the oldest of each topic.
  abbrev pub used_observations : Node mrpt → ObsList mrpt
  used_observations n =
      let recent = in_window mrpt n.time_window n.hist_obs in
      if n.one_observation_per_topic then one_per_topic mrpt recent else recent

  abbrev pub gathered : ObsList mrpt → Map → Map
  gathered [] mm = mm
  gathered ((t, ipt) ∷ obs) mm = gathered obs (per_obs_filter (generate ipt.observation mm))

  abbrev pub local_map : Node mrpt → Map
  local_map n = final_filter (gathered (used_observations n) empty_map)

  abbrev simplified : Option Points → Option Simple
  simplified none = none
  simplified (some pts) = as_simple pts

  -- A layer as a cloud, if it is there and can be one.
  abbrev pub layer_cloud : Map → LayerTopicNames mrpt → Option Simple
  layer_cloud mm e = simplified (point_layer mm e.layer)

  abbrev pub has_subscribers : LayerTopicNames mrpt → Bool
  has_subscribers e = not (e.subscriptions == 0)

  -- Every layer that somebody reads is there.
  abbrev pub all_there : Map → List (LayerTopicNames mrpt) → Bool
  all_there mm [] = true
  all_there mm (e ∷ es) =
      (if has_subscribers e then has_value (layer_cloud mm e) else true) && all_there mm es

  -- The layers that somebody reads, each on its topic.
  abbrev pub layer_clouds :
      String → Time → Map → List (LayerTopicNames mrpt) → List (Published mrpt)
  layer_clouds frame stamp mm [] = []
  layer_clouds frame stamp mm (e ∷ es) =
      let rest = layer_clouds frame stamp mm es in
      if has_subscribers e
      then elim (layer_cloud mm e) [
        | none ↦ rest
        | some s ↦ record { topic = e.topic; frame_id = frame; stamp = stamp; points = s } ∷ rest
      ]
      else rest

  build_map-gathered :
      (cur : Pose) (obs : ObsList mrpt) (mm : Map) → build_map mrpt cur obs mm ≡ gathered obs mm
  unfolding build_map
  build_map-gathered cur [] mm = refl
  build_map-gathered cur ((t, ipt) ∷ obs) mm = build_map-gathered cur obs _

  publish_layer-there :
      (frame : String) (stamp : Time) (mm : Map) (e : LayerTopicNames mrpt) {s : Simple}
      → layer_cloud mm e ≡ some s
      → publish_layer mrpt frame stamp mm e
        ≡ ok (record { topic = e.topic; frame_id = frame; stamp = stamp; points = s })
  unfolding publish_layer
  publish_layer-there frame stamp mm e h = elim (Option-cases (point_layer mm e.layer)) [
    | inl missing ↦ cc (missing, h)
    | inr (pts, there) ↦
        let simple = ap simplified (sym there) ∙ h in rw (there, simple, publish_layer) refl
  ]

  publish_all-there :
      (frame : String) (stamp : Time) (mm : Map) (es : List (LayerTopicNames mrpt))
      → all_there mm es ≡ true
      → publish_all mrpt frame stamp mm es ≡ (layer_clouds frame stamp mm es, ok tt)
  unfolding publish_all
  publish_all-there frame stamp mm [] h = refl
  publish_all-there frame stamp mm (e ∷ es) h =
      let rest = publish_all-there frame stamp mm es (ground (arith, h)) in
      elim (Bool-cases (e.subscriptions == 0)) [
        | inl unread ↦ rw (unread, publish_all, layer_clouds) rest
        | inr read ↦ elim (Option-cases (layer_cloud mm e)) [
          | inl missing ↦ absurd (ground (arith, h, read, missing))
          | inr (s, there) ↦
              rw (read, publish_all, publish_layer-there frame stamp mm e there, there, rest) refl
        ]
      ]

  chosen-used :
      (n : Node mrpt)
      → purged mrpt n.time_window n.hist_obs ≡ in_window mrpt n.time_window n.hist_obs
      → chosen mrpt n (purged mrpt n.time_window n.hist_obs) ≡ used_observations n
  unfolding chosen
  chosen-used n h = ap (λ o. if n.one_observation_per_topic then one_per_topic mrpt o else o) h

  published-used :
      (n : Node mrpt) (cur : Pose) (last : Time)
      → last_key (used_observations n) ≡ some last
      → all_there (local_map n) n.layer2topic ≡ true
      → published mrpt n (used_observations n) (found cur)
        ≡ (layer_clouds n.frameid_robot last (local_map n) n.layer2topic, ok tt)
  unfolding published
  published-used n cur last h there =
      rw (h, published, build_map-gathered cur (used_observations n) empty_map)
        (publish_all-there n.frameid_robot last (local_map n) n.layer2topic there)

  published-nothing :
      (n : Node mrpt) (cur : Pose) (obs : ObsList mrpt)
      → last_key obs ≡ none
      → published mrpt n obs (found cur) ≡ ([], ok tt)
  unfolding published
  published-nothing n cur obs h = rw (h, published) refl

  -- However messages and timers have come, with the pose of the robot known: without observations
  -- the next timer publishes nothing. Otherwise, if every layer that somebody reads is there and can
  -- be a cloud, it publishes these layers of the local map of the observations in the time window
  -- (the oldest of each topic of them, where it is configured so), each on its topic, with the stamp
  -- of the last one, and no exception.
  pub on_do_publish-local_map :
      (es : List (Event mrpt)) (fresh : Node mrpt) (cur : Pose)
      → fresh.hist_obs ≡ []
      → let n = on_events mrpt es fresh in
        let (_, clouds, outcome) = on_do_publish mrpt (found cur) n in
        (last_key (used_observations n) ≡ none → (clouds ≡ []) × (outcome ≡ ok tt))
        × ((last : Time)
            → last_key (used_observations n) ≡ some last
            → all_there (local_map n) n.layer2topic ≡ true
            → (clouds ≡ layer_clouds n.frameid_robot last (local_map n) n.layer2topic)
              × (outcome ≡ ok tt))
  unfolding on_do_publish
  on_do_publish-local_map es fresh cur empty =
      let n = on_events mrpt es fresh in
      let used =
        ap (λ obs. published mrpt n obs (found cur))
          (chosen-used n (on_do_publish-history mrpt es fresh (found cur) empty).1) in
      (
        λ h.
            let eq = used ∙ published-nothing n cur (used_observations n) h in
            (ap (λ r. r.0) eq, ap (λ r. r.1) eq),
        λ last h there.
            let eq = used ∙ published-used n cur last h there in
            (ap (λ r. r.0) eq, ap (λ r. r.1) eq),
      )
