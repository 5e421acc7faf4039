-- ===== src/RawlogPlay/Node/Rounds.antt =====
-- Rounds of `loop` over pairs of an action and a sensory frame.
use Prim.Native.String.{String}
use mrpt_navigation.Base.{
  ℕ, suc, ◌+◌, ◌%◌, ◌^◌, ◌<◌, Bool, false, Option, List, [], ◌∷◌, ◌++◌, ok, ◌≡◌, refl, sym, ap,
  subst, ◌∙◌, append_assoc, append-nil, All, arith, length, ◌==◌, Bool-cases, inl, inr,
}
use mrpt_navigation.Bridge.Sensors.{Bridge}
use mrpt_navigation.RawlogPlay.Library.{Rosbridge, Observation, Entry, pair}
use mrpt_navigation.RawlogPlay.Observations.{Player}
use mrpt_navigation.RawlogPlay.Observations.Shown.{FillsScan, Shown, shown_of_all, CanSend}
use mrpt_navigation.RawlogPlay.Player.{next_entry}
use mrpt_navigation.RawlogPlay.Player.Played.{Played, odometry, next_entry-pair}
use mrpt_navigation.RawlogPlay.Node.{
  RawLogRecordConfig, Parameters, Outside, update, callback_parameters, spin_once, loop,
}

module _ (bridge : Bridge) (ros : Rosbridge bridge) where
  open bridge use {Real, TimeMsg}
  open ros use {Scan, scan_label, ScanContent, laser_to_ros, Pdf, no_pdf, minus, Action, movement}

  abbrev pub Pairs : Type 0
  Pairs = List (Action × List (Observation bridge ros))

  -- The rawlog of these pairs and what follows.
  abbrev pub entries : Pairs → List (Entry bridge ros) → List (Entry bridge ros)
  entries [] rest = rest
  entries ((a, os) ∷ ps) rest = pair a os ∷ entries ps rest

  abbrev pub pose_after : Pdf → Pairs → Pdf
  pose_after pose [] = pose
  pose_after pose ((a, os) ∷ ps) = pose_after (minus pose (movement a)) ps

  -- What is shown for the pairs, one after another.
  abbrev pub shown_pairs : String → String → Pdf → Pairs → List (Shown bridge ros)
  shown_pairs base odom pose [] = []
  shown_pairs base odom pose ((a, os) ∷ ps) =
      shown_of_all bridge ros base os
      ++ odometry bridge ros base odom (minus pose (movement a))
        ∷ shown_pairs base odom (minus pose (movement a)) ps

  -- Every observation of the pairs can be sent.
  abbrev pub AllCanSend : Pairs → Type 0
  AllCanSend ps = All (λ p. All (CanSend bridge ros) p.1) ps

  pub update-skip :
      (answer : Option Bool) (count : ℕ) (p : Parameters bridge ros)
      → 0 < p.parameter_update_skip
      → (p' : Parameters bridge ros) × (update bridge ros answer count p ≡ ok p')
        × (p'.parameter_update_skip ≡ p.parameter_update_skip)
        × (p'.rawlog_file ≡ p.rawlog_file)
  unfolding update
  update-skip answer count p h =
      let nonzero : (p.parameter_update_skip == 0) ≡ false = ground arith in
      elim (Bool-cases (count % p.parameter_update_skip == 0)) [
        | inl due ↦ rw (nonzero, update, due) (_, refl, refl, refl)
        | inr undue ↦ rw (nonzero, update, undue) (p, refl, refl, refl)
      ]

  spin_once-skip :
      (cs : List (RawLogRecordConfig Real)) (p : Parameters bridge ros)
      → (spin_once bridge ros cs p).parameter_update_skip ≡ p.parameter_update_skip
  unfolding spin_once callback_parameters
  spin_once-skip [] p = refl
  spin_once-skip (c ∷ cs) p = spin_once-skip cs (callback_parameters bridge ros c p) ∙ ground arith

  module _ (labelled : FillsScan bridge ros) where
    -- A round over a pair.
    loop-pair :
        (a : Action) (os : List (Observation bridge ros)) (rest : List (Entry bridge ros)) (n : ℕ)
        (outside : Outside bridge ros) (p : Parameters bridge ros) (base odom : String) (pose : Pdf)
        (shown : List (Shown bridge ros)) (s : Player bridge ros)
        → 0 < p.parameter_update_skip
        → All (CanSend bridge ros) os
        → Played bridge ros base odom (pair a os ∷ rest) pose shown s
        → (p' : Parameters bridge ros) × (s' : Player bridge ros) × (loop bridge ros
              (suc n)
              outside
              p
              s
            ≡ loop bridge ros n outside p' s')
          × (0 < p'.parameter_update_skip)
          × Played bridge ros base odom rest
              (minus pose (movement a))
              (shown
                ++ shown_of_all bridge ros base os
                ++ odometry bridge ros base odom (minus pose (movement a)) ∷ [])
              s'
    unfolding loop
    loop-pair a os rest n outside p base odom pose shown s skip can v =
        let (p1, updated, kept, same) =
          update-skip (outside.debug_param s.loop_count) s.loop_count p skip in
        let (going, w) =
          next_entry-pair bridge ros labelled a os rest base odom pose shown s can v in
        let spun = spin_once-skip (outside.reconfigured s.loop_count) p1 in
        let counted : Player bridge ros = record (next_entry bridge ros s).0 {
          loop_count = suc (next_entry bridge ros s).0.loop_count % 2 ^ 64;
        } in
        (
          spin_once bridge ros (outside.reconfigured s.loop_count) p1,
          counted,
          rw (updated, loop, going) refl,
          subst (λ k. 0 < k) (sym (spun ∙ kept)) skip,
          record {
            base_frame = w.base_frame;
            odom_frame = w.odom_frame;
            stream_left = w.stream_left;
            robot_pose = w.robot_pose;
            landmark_frame = w.landmark_frame;
            all_shown = w.all_shown;
          },
        )

    -- Rounds over pairs lead to a state that has shown them.
    pub loop-pairs :
        (ps : Pairs) (rest : List (Entry bridge ros)) (n : ℕ) (outside : Outside bridge ros)
        (p : Parameters bridge ros) (base odom : String) (pose : Pdf)
        (shown : List (Shown bridge ros)) (s : Player bridge ros)
        → 0 < p.parameter_update_skip
        → AllCanSend ps
        → Played bridge ros base odom (entries ps rest) pose shown s
        → (p' : Parameters bridge ros) × (s' : Player bridge ros) × (loop bridge ros
              (length ps + n)
              outside
              p
              s
            ≡ loop bridge ros n outside p' s')
          × (0 < p'.parameter_update_skip)
          × Played bridge ros base odom rest
              (pose_after pose ps)
              (shown ++ shown_pairs base odom pose ps)
              s'
    loop-pairs [] rest n outside p base odom pose shown s skip can v = (
      p,
      s,
      ap (λ k. loop bridge ros k outside p s) (omega arith),
      skip,
      subst (λ l. Played bridge ros base odom rest pose l s) (sym (append-nil shown)) v,
    )
    loop-pairs ((a, os) ∷ ps) rest n outside p base odom pose shown s skip can v =
        let (p1, s1, round, skip1, v1) =
          loop-pair a os (entries ps rest) (length ps + n) outside p base odom pose shown s skip
            can.0 v in
        let (p2, s2, rounds, skip2, v2) =
          loop-pairs ps rest n outside p1 base odom (minus pose (movement a)) _ s1 skip1 can.1 v1 in
        (
          p2,
          s2,
          ap (λ k. loop bridge ros k outside p s) (omega arith) ∙ round ∙ rounds,
          skip2,
          subst
              (λ l. Played bridge ros base odom rest (pose_after (minus pose (movement a)) ps) l s2)
              (append_assoc (shown ++ shown_of_all bridge ros base os)
                  (odometry bridge ros base odom (minus pose (movement a)) ∷ []) _
                ∙ append_assoc shown (shown_of_all bridge ros base os) _)
              v2,
        )
