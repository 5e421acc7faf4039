-- ===== src/Pf/Queue/Conflicts.antt =====
-- When the queue loop of `onStateRunning` throws: the check of the classes of one sensor label.
use mrpt_navigation.Base.{
  false, Option, none, some, List, [], ◌∷◌, ok, err, class_conflict, Exception, ◌≡◌, ◌≢◌, refl, sym,
  ◌∙◌, ap, ◌⊎◌, inl, inr, arith, Bool-cases, Option-cases, Result-cases,
}
use mrpt_navigation.Base.StdMap.{Key, find, beq_refl}
use mrpt_navigation.Pf.Library.{Mrpt}
use mrpt_navigation.Pf.Queue.{Collected, nothing_collected, collect_one, collect}
use mrpt_navigation.Pf.Queue.Latest.{collect_one_classes}

module _ (mrpt : Mrpt) where
  open mrpt use {Label, label_key, ClassName, class_key, Obs, sensor_label, class_name}

  instance abbrev order : Key Label
  order = label_key

  abbrev pub Has : Obs → List (Option Obs) → Type 0
  Has o [] = ⊥
  Has o (none ∷ os) = Has o os
  Has o (some p ∷ os) = (p ≡ o) ⊎ Has o os

  -- Two queued observations share a label and differ in their class.
  pub record Conflict (os : List (Option Obs)) : Type 0 where
    pub one : Obs
    pub other : Obs
    pub one_queued : Has one os
    pub other_queued : Has other os
    pub same_label : sensor_label one ≡ sensor_label other
    pub other_class : class_name one ≢ class_name other

  collect_one_keeps :
      (p : Obs) (w : Collected mrpt) {w' : Collected mrpt} (l : Label) {c : ClassName}
      → find l w.class_by_label ≡ some c
      → collect_one mrpt p w ≡ ok w'
      → find l w'.class_by_label ≡ some c
  unfolding collect_one
  collect_one_keeps p w l {c = c} h k = ground (
    arith,
    collect_one_classes mrpt p w l k,
    label_key.beq_iff l (sensor_label p),
    class_key.beq_iff c (class_name p),
  )

  collect_one_err :
      (p : Obs) (w : Collected mrpt) {e : Exception}
      → collect_one mrpt p w ≡ err e
      → (e ≡ class_conflict)
        × (c : ClassName) × (find (sensor_label p) w.class_by_label ≡ some c)
        × (class_key.beq c (class_name p) ≡ false)
  unfolding collect_one
  collect_one_err p w h = elim (Option-cases (find (sensor_label p) w.class_by_label)) [
    | inl new ↦ cc (rw (new, collect_one) at h)
    | inr (c, old) ↦ (ground arith, c, old, ground arith)
  ]

  collect-err-of_seen :
      (o : Obs) (os : List (Option Obs)) (w : Collected mrpt) (c : ClassName)
      → find (sensor_label o) w.class_by_label ≡ some c
      → c ≢ class_name o
      → Has o os
      → collect mrpt os w ≡ err class_conflict
  unfolding collect
  collect-err-of_seen o [] w c seen differ h = absurd h
  collect-err-of_seen o (none ∷ os) w c seen differ h = collect-err-of_seen o os w c seen differ h
  collect-err-of_seen o (some p ∷ os) w c seen differ h =
      elim (Result-cases (collect_one mrpt p w)) [
        | inr (e, failed) ↦ rw (failed, collect) (ap err (collect_one_err p w failed).0)
        | inl (v, first) ↦
            rw (first, collect)
              (elim h [
                | inl same ↦ absurd (differ (agree same first))
                | inr later ↦
                    collect-err-of_seen o os v c (collect_one_keeps p w (sensor_label o) seen first)
                      differ later
              ])
      ]
    where
      agree : {v : Collected mrpt} → p ≡ o → collect_one mrpt p w ≡ ok v → c ≡ class_name o
      agree {v} same first = ground (
        arith,
        collect_one_keeps p w (sensor_label o) seen first,
        collect_one_classes mrpt p w (sensor_label o) first,
        beq_refl (sensor_label o),
      )

  collect-err-of_pair :
      (os : List (Option Obs)) (w : Collected mrpt) (o p : Obs)
      → Has o os
      → Has p os
      → sensor_label o ≡ sensor_label p
      → class_name o ≢ class_name p
      → collect mrpt os w ≡ err class_conflict
  unfolding collect
  collect-err-of_pair [] w o p ho hp same differ = absurd ho
  collect-err-of_pair (none ∷ os) w o p ho hp same differ =
      collect-err-of_pair os w o p ho hp same differ
  collect-err-of_pair (some q ∷ os) w o p ho hp same differ =
      elim (Result-cases (collect_one mrpt q w)) [
        | inr (e, failed) ↦ rw (failed, collect) (ap err (collect_one_err q w failed).0)
        | inl (v, first) ↦
            rw (first, collect)
              (split v first ho hp λ a b. collect-err-of_pair os v o p a b same differ)
      ]
    where
      noted :
          (v : Collected mrpt) (r : Obs)
          → collect_one mrpt q w ≡ ok v
          → q ≡ r
          → find (sensor_label r) v.class_by_label ≡ some (class_name r)
      noted v r first e =
          ground
            (arith, collect_one_classes mrpt q w (sensor_label r) first, beq_refl (sensor_label r))

      split :
          (v : Collected mrpt)
          → collect_one mrpt q w ≡ ok v
          → (q ≡ o) ⊎ Has o os
          → (q ≡ p) ⊎ Has p os
          → (Has o os → Has p os → collect mrpt os v ≡ err class_conflict)
          → collect mrpt os v ≡ err class_conflict
      split v first (inl a) (inl b) both = absurd (differ (ap class_name (sym a ∙ b)))
      split v first (inl a) (inr b) both =
          collect-err-of_seen p os v (class_name o) (rw (← same) (noted v o first a)) differ b
      split v first (inr a) (inl b) both =
          collect-err-of_seen o os v (class_name p) (rw same (noted v p first b))
            (λ e. differ (sym e)) a
      split v first (inr a) (inr b) both = both a b

  Noted : List (Option Obs) → Collected mrpt → Type 0
  Noted all w =
      (l : Label) (c : ClassName)
      → find l w.class_by_label ≡ some c
      → (o : Obs) × Has o all × (sensor_label o ≡ l) × (class_name o ≡ c)

  Noted-collect_one :
      (all : List (Option Obs)) (p : Obs) (w v : Collected mrpt)
      → Has p all
      → Noted all w
      → collect_one mrpt p w ≡ ok v
      → Noted all v
  unfolding Noted
  Noted-collect_one all p w v queued noted first l c h =
      elim (Bool-cases (label_key.beq l (sensor_label p))) [
        | inl here ↦ (
          p,
          queued,
          sym ((label_key.beq_iff l (sensor_label p)).0 here),
          ground (arith, collect_one_classes mrpt p w l first),
        )
        | inr elsewhere ↦ noted l c (ground (arith, collect_one_classes mrpt p w l first))
      ]

  conflict_of_err :
      (os all : List (Option Obs)) (w : Collected mrpt) {e : Exception}
      → ((o : Obs) → Has o os → Has o all)
      → Noted all w
      → collect mrpt os w ≡ err e
      → Conflict all
  unfolding collect Noted
  conflict_of_err [] all w within noted h = cc
  conflict_of_err (none ∷ os) all w within noted h = conflict_of_err os all w within noted h
  conflict_of_err (some p ∷ os) all w within noted h = elim (Result-cases (collect_one mrpt p w)) [
    | inl (v, first) ↦
        conflict_of_err os all v (λ o k. within o (inr k))
          (Noted-collect_one all p w v (within p (inl refl)) noted first) (rw (first, collect) at h)
    | inr (e, failed) ↦
        clash (collect_one_err p w failed).1 (collect_one_err p w failed).2
          (collect_one_err p w failed).3
  ]
    where
      clash :
          (c : ClassName)
          → find (sensor_label p) w.class_by_label ≡ some c
          → class_key.beq c (class_name p) ≡ false
          → Conflict all
      clash c seen differ =
          let (o, queued, same, class) = noted (sensor_label p) c seen in
          record {
            one = o;
            other = p;
            one_queued = queued;
            other_queued = within p (inl refl);
            same_label = same;
            other_class = ground (arith, class_key.beq_iff c (class_name p));
          }

  -- The loop over the queue throws just where two queued observations share a label and differ in
  -- their class, and then it throws for that reason.
  pub collect-err_iff :
      (os : List (Option Obs))
      → (((e : Exception) × (collect mrpt os (nothing_collected mrpt) ≡ err e)) → Conflict os)
        × (Conflict os → collect mrpt os (nothing_collected mrpt) ≡ err class_conflict)
  unfolding Noted
  collect-err_iff os = (
    λ (e, h). conflict_of_err os os (nothing_collected mrpt) (λ o k. k) (λ l c k. cc) h,
    λ k.
        collect-err-of_pair os (nothing_collected mrpt) k.one k.other k.one_queued k.other_queued
          k.same_label k.other_class,
  )
