-- ===== src/Pf/Queue/Latest.antt =====
-- What the queue loop of `onStateRunning` collects, against the last observation of each label.
use mrpt_navigation.Base.{
  Option, none, some, List, [], ◌∷◌, ok, if◌then◌else◌, ◌≡◌, ◌∙◌, inl, inr, arith, Option-cases,
  Result-cases,
}
use mrpt_navigation.Base.StdMap.{Key, find, find-assign, assign-IsSorted, IsSorted}
use mrpt_navigation.Pf.Library.{Mrpt}
use mrpt_navigation.Pf.Queue.{label_order, Collected, nothing_collected, collect_one, collect}

module _ (mrpt : Mrpt) where
  open mrpt use {Label, label_key, class_key, Obs, sensor_label, class_name}

  instance abbrev order : Key Label
  order = label_key

  -- The last observation of the label in the queue.
  pub latest : Label → List (Option Obs) → Option Obs
  latest l [] = none
  latest l (none ∷ os) = latest l os
  latest l (some o ∷ os) = elim (latest l os) [
    | some p ↦ some p
    | none ↦ if label_key.beq l (sensor_label o) then some o else none
  ]

  pub collect_one_classes :
      (o : Obs) (w : Collected mrpt) {w' : Collected mrpt} (l : Label)
      → collect_one mrpt o w ≡ ok w'
      → find l w'.class_by_label ≡ (
          if label_key.beq l (sensor_label o) then some (class_name o) else find l w.class_by_label)
  unfolding collect_one
  collect_one_classes o w l h = elim (Option-cases (find (sensor_label o) w.class_by_label)) [
    | inl new ↦ ground (arith, find-assign l (sensor_label o) (class_name o) w.class_by_label)
    | inr (seen, old) ↦
        ground (arith, class_key.beq_iff seen (class_name o), label_key.beq_iff l (sensor_label o))
  ]

  collect_one_obs :
      (o : Obs) (w : Collected mrpt) {w' : Collected mrpt} (l : Label)
      → collect_one mrpt o w ≡ ok w'
      → find l w'.obs_by_label
        ≡ (if label_key.beq l (sensor_label o) then some o else find l w.obs_by_label)
  unfolding collect_one
  collect_one_obs o w l h = ground (arith, find-assign l (sensor_label o) o w.obs_by_label)

  collect_one-IsSorted :
      (o : Obs) (w : Collected mrpt) {w' : Collected mrpt}
      → collect_one mrpt o w ≡ ok w'
      → IsSorted w.obs_by_label
      → IsSorted w'.obs_by_label
  unfolding collect_one
  collect_one-IsSorted o w h s = ground (arith, assign-IsSorted (sensor_label o) o w.obs_by_label s)

  or_else : Option Obs → Option Obs → Option Obs
  or_else none d = d
  or_else (some o) d = some o

  or_else-latest :
      (l : Label) (o : Obs) (os : List (Option Obs)) (d : Option Obs)
      → or_else (latest l os) (if label_key.beq l (sensor_label o) then some o else d)
        ≡ or_else (latest l (some o ∷ os)) d
  unfolding latest or_else
  or_else-latest l o os d = ground arith

  collect-obs :
      (os : List (Option Obs)) (w : Collected mrpt) {w' : Collected mrpt} (l : Label)
      → collect mrpt os w ≡ ok w'
      → find l w'.obs_by_label ≡ or_else (latest l os) (find l w.obs_by_label)
  unfolding collect latest or_else
  collect-obs [] w l h = ground arith
  collect-obs (none ∷ os) w l h = collect-obs os w l h
  collect-obs (some o ∷ os) w l h = elim (Result-cases (collect_one mrpt o w)) [
    | inl (v, first) ↦
        collect-obs os v l (rw (first, collect) at h)
        ∙ rw (collect_one_obs o w l first) (or_else-latest l o os (find l w.obs_by_label))
    | inr (e, failed) ↦ cc (rw (failed, collect) at h)
  ]

  collect-IsSorted :
      (os : List (Option Obs)) (w : Collected mrpt) {w' : Collected mrpt}
      → collect mrpt os w ≡ ok w'
      → IsSorted w.obs_by_label
      → IsSorted w'.obs_by_label
  unfolding collect
  collect-IsSorted [] w h s = ground arith
  collect-IsSorted (none ∷ os) w h s = collect-IsSorted os w h s
  collect-IsSorted (some o ∷ os) w h s = elim (Result-cases (collect_one mrpt o w)) [
    | inl (v, first) ↦
        collect-IsSorted os v (rw (first, collect) at h) (collect_one-IsSorted o w first s)
    | inr (e, failed) ↦ cc (rw (failed, collect) at h)
  ]

  -- When the loop over the queue throws nothing, it has for each label the last observation with
  -- that label, in the order of the labels.
  pub collect-latest :
      (os : List (Option Obs)) {w : Collected mrpt}
      → collect mrpt os (nothing_collected mrpt) ≡ ok w
      → IsSorted w.obs_by_label × ((l : Label) → find l w.obs_by_label ≡ latest l os)
  unfolding or_else
  collect-latest os h = (
    collect-IsSorted os (nothing_collected mrpt) h tt,
    λ l. collect-obs os (nothing_collected mrpt) l h ∙ ground arith,
  )
