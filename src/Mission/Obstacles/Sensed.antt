-- ===== src/Mission/Obstacles/Sensed.antt =====
-- What the navigation engine senses of the local maps.
use Prim.Native.String.{String}
use mrpt_navigation.Base.{
  true, ◌&&◌, Option, none, some, List, [], ◌∷◌, ok, ◌≡◌, refl, sym, ap, ◌∙◌, arith, Bool-cases,
  Option-cases, inl, inr, same_text, if◌then◌else◌,
}
use mrpt_navigation.Base.StdMap.{Key}
use mrpt_navigation.Base.StdMultimap.{last_key}
use mrpt_navigation.Pipeline.Local as Local
use mrpt_navigation.Pipeline.Local.{LayerTopicNames, Published, found, on_do_publish}
use mrpt_navigation.Pipeline.Local.History.{Event, on_events}
use mrpt_navigation.Pipeline.Local.Maps.{
  used_observations, local_map, layer_cloud, layer_clouds, has_subscribers, all_there,
  on_do_publish-local_map,
}
use mrpt_navigation.Nav.Library.{Mrpt}
use mrpt_navigation.Nav.Node.{Node, sense_obstacles}
use mrpt_navigation.Nav.Commands.{on_local_obstacles}
use mrpt_navigation.Mission.Obstacles.{deliver_clouds, delivered, publish_obstacles}

module _ (rig : Local.Mrpt) (mrpt : Mrpt) (message_of : rig.Simple → mrpt.Cloud) where
  open mrpt use {Points, points_of, no_points}
  open rig use {Time, time_key, Map, Pose, Simple}

  instance abbrev order : Key Time
  order = time_key

  abbrev pub newer_or : Option Simple → Option Simple → Option Simple
  newer_or none old = old
  newer_or (some s) old = some s

  -- The last layer that is published on this topic.
  abbrev pub cloud_on : String → Map → List (LayerTopicNames rig) → Option Simple
  cloud_on topic mm [] = none
  cloud_on topic mm (e ∷ es) =
      newer_or (cloud_on topic mm es)
        (if has_subscribers rig e && same_text e.topic topic then layer_cloud rig mm e else none)

  abbrev pub points_or : Option Simple → Points → Points
  points_or none old = old
  points_or (some s) old = points_of (message_of s)

  abbrev now_sees : Option Simple → Node mrpt → Node mrpt
  now_sees o n = record n { last_obstacles = points_or o n.last_obstacles }

  newer_or-none : (o : Option Simple) → newer_or o none ≡ o
  newer_or-none none = refl
  newer_or-none (some s) = refl

  now_sees-now_sees :
      (o : Option Simple) (s : Simple) (n : Node mrpt)
      → now_sees o (now_sees (some s) n) ≡ now_sees (newer_or o (some s)) n
  now_sees-now_sees none s n = refl
  now_sees-now_sees (some t) s n = refl

  -- One more layer, before the others.
  delivered-one :
      (topic frame : String) (stamp : Time) (s : Simple) (e : LayerTopicNames rig)
      (ps : List (Published rig)) (o : Option Simple) (n : Node mrpt)
      → ((m : Node mrpt) → deliver_clouds rig mrpt message_of topic ps m ≡ now_sees o m)
      → deliver_clouds rig mrpt message_of topic
          (record { topic = e.topic; frame_id = frame; stamp = stamp; points = s } ∷ ps)
          n
        ≡ now_sees (newer_or o (if same_text e.topic topic then some s else none)) n
  unfolding deliver_clouds on_local_obstacles
  delivered-one topic frame stamp s e ps o n rest = elim (Bool-cases (same_text e.topic topic)) [
    | inl here ↦ rw (here, deliver_clouds) (rest (now_sees (some s) n) ∙ now_sees-now_sees o s n)
    | inr other ↦
        rw (other, deliver_clouds) (rest n ∙ ap (λ p. now_sees p n) (sym (newer_or-none o)))
  ]

  delivered-now_sees :
      (topic frame : String) (stamp : Time) (mm : Map) (es : List (LayerTopicNames rig))
      (n : Node mrpt)
      → all_there rig mm es ≡ true
      → deliver_clouds rig mrpt message_of topic (layer_clouds rig frame stamp mm es) n
        ≡ now_sees (cloud_on topic mm es) n
  unfolding deliver_clouds
  delivered-now_sees topic frame stamp mm [] n there = refl
  delivered-now_sees topic frame stamp mm (e ∷ es) n there =
      let rest =
        λ (m : Node mrpt). delivered-now_sees topic frame stamp mm es m (ground (arith, there)) in
      elim (Bool-cases (has_subscribers rig e)) [
        | inr unread ↦
            rw (unread, layer_clouds)
              (rest n ∙ ap (λ p. now_sees p n) (sym (newer_or-none (cloud_on topic mm es))))
        | inl read ↦ elim (Option-cases (layer_cloud rig mm e)) [
          | inl missing ↦ absurd (ground (arith, there, read, missing))
          | inr (s, found_it) ↦
              rw (read, layer_clouds, found_it)
                (delivered-one topic frame stamp s e (layer_clouds rig frame stamp mm es)
                  (cloud_on topic mm es) n rest)
        ]
      ]

  -- The pipeline after any messages and timers, with the pose of the robot known, and a navigation
  -- node that hears a topic. Without observations the next timer changes nothing for the latter.
  -- Otherwise, if every layer that somebody reads is there and can be a cloud, the obstacles that the
  -- engine senses next are the points of the last layer on this topic, taken from the local map of
  -- the observations in the time window, or those of before if no layer goes there; in the mode of
  -- pure pursuit there are none.
  pub obstacles-sensed :
      (es : List (Event rig)) (fresh : Local.Node rig) (cur : Pose) (topic : String) (n : Node mrpt)
      → fresh.hist_obs ≡ []
      → let p = on_events rig es fresh in
        let (_, n', outcome) = publish_obstacles rig mrpt message_of topic (found cur) p n in
        (last_key (used_observations rig p) ≡ none → (n' ≡ n) × (outcome ≡ ok tt))
        × ((last : Time)
            → last_key (used_observations rig p) ≡ some last
            → all_there rig (local_map rig p) p.layer2topic ≡ true
            → (outcome ≡ ok tt)
              × (sense_obstacles mrpt n' ≡ (
                  if n.pure_pursuit_mode
                  then no_points
                  else points_or
                      (cloud_on topic (local_map rig p) p.layer2topic)
                      n.last_obstacles)))
  unfolding publish_obstacles delivered deliver_clouds sense_obstacles
  obstacles-sensed es fresh cur topic n empty =
      let p = on_events rig es fresh in
      let (idle, busy) = on_do_publish-local_map rig es fresh cur empty in
      let heard =
        λ (clouds : List (Published rig)). deliver_clouds rig mrpt message_of topic clouds n in
      (
        λ h. let (clouds, done) = idle h in (ap heard clouds ∙ refl, done),
        λ last h there.
            let (clouds, done) = busy last h there in
            (
              done,
              ap (λ m. sense_obstacles mrpt m)
                  (ap heard clouds
                    ∙ delivered-now_sees topic p.frameid_robot last (local_map rig p) p.layer2topic
                        n there),
            ),
      )
