-- ===== src/Pipeline/Local/Poses.antt =====
-- The clouds that are published do not depend on any pose.
use Prim.Native.String.{String}
use mrpt_navigation.Base.{
  none, some, List, [], ◌∷◌, ◌≡◌, refl, ap, ◌∙◌, Bool-cases, Option-cases, inl, inr,
}
use mrpt_navigation.Base.StdMap.{Key}
use mrpt_navigation.Base.StdMultimap.{from_lower_bound, last_key}
use mrpt_navigation.Pipeline.Local.{
  Mrpt, found, ObsList, Node, found_before, keep_first, one_per_topic, purged, build_map, chosen,
  published, on_do_publish,
}

module _ (mrpt : Mrpt) where
  open mrpt use {Time, time_key, minus, Pose, Map}

  instance abbrev order : Key Time
  order = time_key

  -- The same observations, with another robot pose for each.
  abbrev pub reposed : (Pose → Pose) → ObsList mrpt → ObsList mrpt
  reposed f [] = []
  reposed f ((t, ipt) ∷ obs) = (t, record ipt { robot_pose = f ipt.robot_pose }) ∷ reposed f obs

  last_key-reposed :
      (f : Pose → Pose) (obs : ObsList mrpt) → last_key (reposed f obs) ≡ last_key obs
  last_key-reposed f [] = refl
  last_key-reposed f ((t, ipt) ∷ obs) =
      ap (λ l. elim l [ none ↦ some t | some k ↦ some k ]) (last_key-reposed f obs)

  from_lower_bound-reposed :
      (f : Pose → Pose) (k : Time) (obs : ObsList mrpt)
      → from_lower_bound k (reposed f obs) ≡ reposed f (from_lower_bound k obs)
  from_lower_bound-reposed f k [] = refl
  from_lower_bound-reposed f k ((t, ipt) ∷ obs) = elim (Bool-cases (order.lt t k)) [
    | inl l ↦ rw (l, from_lower_bound) (from_lower_bound-reposed f k obs)
    | inr l ↦ rw (l, from_lower_bound) refl
  ]

  purged-reposed :
      (f : Pose → Pose) (w : Time) (obs : ObsList mrpt)
      → purged mrpt w (reposed f obs) ≡ reposed f (purged mrpt w obs)
  unfolding purged
  purged-reposed f w obs = elim (Option-cases (last_key obs)) [
    | inl e ↦ rw (last_key-reposed f obs, e, purged) refl
    | inr (last, e) ↦
        rw (last_key-reposed f obs, e, purged) (from_lower_bound-reposed f (minus last w) obs)
  ]

  keep_first-reposed :
      (f : Pose → Pose) (met : List String) (obs : ObsList mrpt)
      → keep_first mrpt met (reposed f obs) ≡ reposed f (keep_first mrpt met obs)
  unfolding keep_first
  keep_first-reposed f met [] = refl
  keep_first-reposed f met ((t, ipt) ∷ obs) =
      elim (Bool-cases (found_before mrpt ipt.source_topic met)) [
        | inl l ↦ rw (l, keep_first) (keep_first-reposed f met obs)
        | inr l ↦
            rw (l, keep_first)
              (ap (λ r. (t, record ipt { robot_pose = f ipt.robot_pose }) ∷ r)
                (keep_first-reposed f (ipt.source_topic ∷ met) obs))
      ]

  chosen-reposed :
      (f : Pose → Pose) (n : Node mrpt) (obs : ObsList mrpt)
      → chosen mrpt n (reposed f obs) ≡ reposed f (chosen mrpt n obs)
  unfolding chosen one_per_topic
  chosen-reposed f n obs = elim (Bool-cases n.one_observation_per_topic) [
    | inl l ↦ rw (l, chosen) (keep_first-reposed f [] obs)
    | inr l ↦ rw (l, chosen) refl
  ]

  build_map-reposed :
      (f : Pose → Pose) (p q : Pose) (obs : ObsList mrpt) (mm : Map)
      → build_map mrpt p (reposed f obs) mm ≡ build_map mrpt q obs mm
  unfolding build_map
  build_map-reposed f p q [] mm = refl
  build_map-reposed f p q ((t, ipt) ∷ obs) mm = build_map-reposed f p q obs _

  published-reposed :
      (f : Pose → Pose) (p q : Pose) (n : Node mrpt) (obs : ObsList mrpt)
      → published mrpt n (reposed f obs) (found p) ≡ published mrpt n obs (found q)
  unfolding published
  published-reposed f p q n obs = elim (Option-cases (last_key obs)) [
    | inl e ↦ rw (last_key-reposed f obs, e, published) refl
    | inr (last, e) ↦
        rw (last_key-reposed f obs, e, published, build_map-reposed f p q obs mrpt.empty_map) refl
  ]

  all-reposed :
      (f : Pose → Pose) (p q : Pose) (n : Node mrpt) (w : Time) (obs : ObsList mrpt)
      → published mrpt n (chosen mrpt n (purged mrpt w (reposed f obs))) (found p)
        ≡ published mrpt n (chosen mrpt n (purged mrpt w obs)) (found q)
  all-reposed f p q n w obs =
      ap (λ o. published mrpt n (chosen mrpt n o) (found p)) (purged-reposed f w obs)
      ∙ ap (λ o. published mrpt n o (found p)) (chosen-reposed f n (purged mrpt w obs))
      ∙ published-reposed f p q n (chosen mrpt n (purged mrpt w obs))

  -- Though the local map is meant to be relative to the latest pose of the robot, no pose matters:
  -- with other robot poses in the history and another latest pose, the same clouds are published
  -- and the same outcome is reached.
  pub on_do_publish-reposed :
      (f : Pose → Pose) (p q : Pose) (n : Node mrpt)
      → ((on_do_publish mrpt (found p) (record n { hist_obs = reposed f n.hist_obs })).1
          ≡ (on_do_publish mrpt (found q) n).1)
        × ((on_do_publish mrpt (found p) (record n { hist_obs = reposed f n.hist_obs })).2
            ≡ (on_do_publish mrpt (found q) n).2)
  unfolding on_do_publish published chosen
  on_do_publish-reposed f p q n =
      let same = all-reposed f p q n n.time_window n.hist_obs in
      (ap (λ r. r.0) same, ap (λ r. r.1) same)
