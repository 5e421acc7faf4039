-- ===== src/RawlogPlay/Node/Ends.antt =====
-- How the playback of a rawlog ends.
use Prim.Native.String.{String}
use mrpt_navigation.Base.{
  ℕ, suc, ◌+◌, ◌<◌, Bool, true, false, some, List, [], ◌∷◌, ◌++◌, Result, ok, err, ◌≡◌, refl, ap,
  ◌∙◌, null_pointer, length,
}
use mrpt_navigation.Bridge.Sensors.{Bridge}
use mrpt_navigation.RawlogPlay.Library.{Rosbridge, Observation, Entry, alone}
use mrpt_navigation.RawlogPlay.Observations.{Player, or_default}
use mrpt_navigation.RawlogPlay.Observations.Shown.{FillsScan, Shown, shows, shown_of, CanSend}
use mrpt_navigation.RawlogPlay.Player.Played.{Played, next_entry-alone, next_entry-end}
use mrpt_navigation.RawlogPlay.Node.Rounds.{
  Pairs, entries, pose_after, shown_pairs, AllCanSend, update-skip, loop-pairs,
}
use mrpt_navigation.RawlogPlay.Node.{Parameters, Outside, Run, loop, init, run_main}

module _ (bridge : Bridge) (ros : Rosbridge bridge) where
  open bridge use {Real, TimeMsg}
  open ros use {Scan, scan_label, ScanContent, laser_to_ros, Pdf, no_pdf, minus, Action, movement}

  -- A run that has ended in this way, with this pose, and has shown this.
  abbrev pub Ended :
      Bool → Result (Unit {0}) → Pdf → List (Shown bridge ros) → Run bridge ros → Type 0
  Ended end outcome pose shown r =
      (r.end ≡ end)
      × (r.outcome ≡ outcome)
      × (r.player.robot_pose ≡ pose)
      × (shows bridge ros r.player.sent ≡ shown)

  module _ (labelled : FillsScan bridge ros) where
    loop-end :
        (n : ℕ) (outside : Outside bridge ros) (p : Parameters bridge ros) (base odom : String)
        (pose : Pdf) (shown : List (Shown bridge ros)) (s : Player bridge ros)
        → 0 < p.parameter_update_skip
        → Played bridge ros base odom [] pose shown s
        → Ended true (ok tt) pose shown (loop bridge ros (suc n) outside p s)
    unfolding loop
    loop-end n outside p base odom pose shown s skip v =
        let (p1, updated, kept, same) =
          update-skip bridge ros (outside.debug_param s.loop_count) s.loop_count p skip in
        let (ends, stays) = next_entry-end bridge ros s v.stream_left in
        rw (updated, loop, ends)
          (
            refl,
            refl,
            ap (λ t. t.robot_pose) stays ∙ v.robot_pose,
            ap (λ t. shows bridge ros t.sent) stays ∙ v.all_shown,
          )

    loop-alone :
        (o : Observation bridge ros) (rest : List (Entry bridge ros)) (n : ℕ)
        (outside : Outside bridge ros) (p : Parameters bridge ros) (base odom : String) (pose : Pdf)
        (shown : List (Shown bridge ros)) (s : Player bridge ros)
        → 0 < p.parameter_update_skip
        → CanSend bridge ros o
        → Played bridge ros base odom (alone o ∷ rest) pose shown s
        → Ended false
            (err null_pointer)
            pose
            (shown ++ shown_of bridge ros base o)
            (loop bridge ros (suc n) outside p s)
    unfolding loop
    loop-alone o rest n outside p base odom pose shown s skip can v =
        let (p1, updated, kept, same) =
          update-skip bridge ros (outside.debug_param s.loop_count) s.loop_count p skip in
        let (ends, w) = next_entry-alone bridge ros labelled o rest base odom pose shown s can v in
        rw (updated, loop, ends) (refl, refl, w.robot_pose, w.all_shown)

    -- `init` on a node that has sent nothing.
    init-Played :
        (stream : List (Entry bridge ros)) (outside : Outside bridge ros)
        (p : Parameters bridge ros) (s : Player bridge ros)
        → outside.file p.rawlog_file ≡ some stream
        → s.msg_landmark.frame_id ≡ ""
        → s.sent ≡ []
        → (t : Player bridge ros) × (init bridge ros outside p s ≡ some t)
          × Played bridge ros p.base_frame p.odom_frame stream no_pdf [] t
    unfolding init
    init-Played stream outside p s there no_frame nothing =
        let t : Player bridge ros = record s {
          rawlog_stream = stream;
          odom_frame = p.odom_frame;
          base_frame = p.base_frame;
          robot_pose = no_pdf;
        } in
        (
          t,
          rw (there, init) refl,
          record {
            base_frame = refl;
            odom_frame = refl;
            stream_left = refl;
            robot_pose = refl;
            landmark_frame = ap (λ f. or_default "landmark_link" f) no_frame;
            all_shown = ap (shows bridge ros) nothing;
          },
        )

    -- If `toROS` fills a scan's message with its label and ranges, a rawlog of pairs whose ranges and
    -- bearings all have a measurement is played to its end by a new node with a skip above 0, when
    -- ROS stays up for one round more than there are pairs: the program ends without an exception,
    -- the robot's pose is what the increments, taken off one after another, leave, and the topics
    -- have shown, pair by pair, each observation's transform and message, with its whole content but
    -- its stamp, and then the odometry's transform.
    pub run_main-ends :
        (ps : Pairs bridge ros) (n : ℕ) (outside : Outside bridge ros) (p : Parameters bridge ros)
        (s : Player bridge ros)
        → outside.file p.rawlog_file ≡ some (entries bridge ros ps [])
        → s.msg_landmark.frame_id ≡ ""
        → s.sent ≡ []
        → 0 < p.parameter_update_skip
        → AllCanSend bridge ros ps
        → Ended true
            (ok tt)
            (pose_after bridge ros no_pdf ps)
            (shown_pairs bridge ros p.base_frame p.odom_frame no_pdf ps)
            (run_main bridge ros (length ps + suc n) outside p s)
    unfolding run_main
    run_main-ends ps n outside p s there no_frame nothing skip can =
        let (t, started, v) =
          init-Played (entries bridge ros ps []) outside p s there no_frame nothing in
        let (p1, s1, rounds, skip1, w) =
          loop-pairs bridge ros labelled ps [] (suc n) outside p p.base_frame p.odom_frame no_pdf []
            t skip can v in
        rw (started, run_main, rounds)
          (loop-end n outside p1 p.base_frame p.odom_frame _ _ s1 skip1 w)

    -- If `toROS` fills a scan's message as above: at the first observation that stands alone, after
    -- pairs that are played as in a rawlog of pairs only, a new node with a skip above 0 sends the
    -- observation, if it has a measurement where `toROS` asks for one, and then dereferences a null
    -- pointer: the rest of the rawlog is not played.
    pub run_main-alone :
        (ps : Pairs bridge ros) (o : Observation bridge ros) (rest : List (Entry bridge ros))
        (n : ℕ) (outside : Outside bridge ros) (p : Parameters bridge ros) (s : Player bridge ros)
        → outside.file p.rawlog_file ≡ some (entries bridge ros ps (alone o ∷ rest))
        → s.msg_landmark.frame_id ≡ ""
        → s.sent ≡ []
        → 0 < p.parameter_update_skip
        → AllCanSend bridge ros ps
        → CanSend bridge ros o
        → Ended false
            (err null_pointer)
            (pose_after bridge ros no_pdf ps)
            (shown_pairs bridge ros p.base_frame p.odom_frame no_pdf ps
              ++ shown_of bridge ros p.base_frame o)
            (run_main bridge ros (length ps + suc n) outside p s)
    unfolding run_main
    run_main-alone ps o rest n outside p s there no_frame nothing skip can can_o =
        let (t, started, v) =
          init-Played (entries bridge ros ps (alone o ∷ rest)) outside p s there no_frame nothing in
        let (p1, s1, rounds, skip1, w) =
          loop-pairs bridge ros labelled ps (alone o ∷ rest) (suc n) outside p p.base_frame
            p.odom_frame no_pdf [] t skip can v in
        rw (started, run_main, rounds)
          (loop-alone o rest n outside p1 p.base_frame p.odom_frame _ _ s1 skip1 can_o w)
