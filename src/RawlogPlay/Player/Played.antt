-- ===== src/RawlogPlay/Player/Played.antt =====
-- What `nextEntry` shows for a pair of an action and a sensory frame.
use Prim.Native.String.{String}
use mrpt_navigation.Base.{
  true, false, List, [], ◌∷◌, ◌++◌, ok, err, ◌≡◌, refl, ap, subst, ◌∙◌, append-nil, sym, All,
  null_pointer, arith,
}
use mrpt_navigation.Bridge.Sensors.{Bridge}
use mrpt_navigation.RawlogPlay.Library.{Rosbridge, Observation, Entry, pair, alone}
use mrpt_navigation.RawlogPlay.Observations.{Player, Outcome, publish_single_observation}
use mrpt_navigation.RawlogPlay.Observations.Shown.{
  FillsScan, Shown, moved, shows, shown_of, shown_of_all, CanSend, LandmarkFrame, Adds, Publishes,
  Adds-trans, shows-append,
}
use mrpt_navigation.RawlogPlay.Observations.Published.{publish_single_observation-Publishes}
use mrpt_navigation.RawlogPlay.Player.{and_then, publish_all, move, next_entry}

module _ (bridge : Bridge) (ros : Rosbridge bridge) where
  open bridge use {TimeMsg}
  open ros use {
    Scan, scan_label, ScanContent, laser_to_ros, to_transform, inverse, Pdf, minus, mean, Action,
    movement,
  }

  -- A state with these frames, rest of the rawlog and pose, that has shown this.
  pub record Played (base odom : String) (stream : List (Entry bridge ros)) (pose : Pdf)
      (shown : List (Shown bridge ros)) (s : Player bridge ros) : Type 0 where
    pub base_frame : s.base_frame ≡ base
    pub odom_frame : s.odom_frame ≡ odom
    pub stream_left : s.rawlog_stream ≡ stream
    pub robot_pose : s.robot_pose ≡ pose
    pub landmark_frame : LandmarkFrame bridge ros s
    pub all_shown : shows bridge ros s.sent ≡ shown

  -- The transform from the base to the odometry frame.
  abbrev pub odometry : String → String → Pdf → Shown bridge ros
  odometry base odom pose = moved base odom (inverse (to_transform (mean pose)))

  and_then-Publishes :
      (s : Player bridge ros) (o : Outcome bridge ros) (f : Player bridge ros → Outcome bridge ros)
      (ms ns : List (Shown bridge ros))
      → Publishes bridge ros s o ms
      → ((t : Player bridge ros) → Adds bridge ros s t ms → Publishes bridge ros t (f t) ns)
      → Publishes bridge ros s (and_then bridge ros o f) (ms ++ ns)
  unfolding and_then
  and_then-Publishes s (t, ok _) f ms ns v next =
      let w = next t v.1 in (w.0, Adds-trans bridge ros ms ns v.1 w.1)
  and_then-Publishes s (t, err e) f ms ns v next = ground (arith, v.0)

  module _ (labelled : FillsScan bridge ros) where
    publish_all-Publishes :
        (os : List (Observation bridge ros)) (s : Player bridge ros)
        → All (CanSend bridge ros) os
        → LandmarkFrame bridge ros s
        → Publishes bridge ros s
            (publish_all bridge ros os s)
            (shown_of_all bridge ros s.base_frame os)
    unfolding publish_all
    publish_all-Publishes [] s can l = (
      refl,
      record {
        base = refl;
        odom = refl;
        stream = refl;
        pose = refl;
        count = refl;
        landmark_frame = l;
        adds = sym (append-nil (shows bridge ros s.sent));
      },
    )
    publish_all-Publishes (o ∷ os) s can l =
        and_then-Publishes s (publish_single_observation bridge ros o s) (publish_all bridge ros os)
          (shown_of bridge ros s.base_frame o) (shown_of_all bridge ros s.base_frame os)
          (publish_single_observation-Publishes bridge ros labelled o s can.0 l)
          (λ t v.
            subst
              (λ b.
                Publishes bridge ros t (publish_all bridge ros os t) (shown_of_all bridge ros b os))
              v.base (publish_all-Publishes os t can.1 v.landmark_frame))

    -- The move after the observations that lead from a state to another.
    move-Played :
        (a : Action) (s t : Player bridge ros) (shown : List (Shown bridge ros))
        → Adds bridge ros s t shown
        → Played s.base_frame s.odom_frame s.rawlog_stream
            (minus s.robot_pose (movement a))
            (shows bridge ros s.sent
              ++ shown
              ++ odometry s.base_frame s.odom_frame (minus s.robot_pose (movement a)) ∷ [])
            (move bridge ros a t)
    unfolding move
    move-Played a s t shown v = record {
      base_frame = v.base;
      odom_frame = v.odom;
      stream_left = v.stream;
      robot_pose = ap (λ q. minus q (movement a)) v.pose;
      landmark_frame = v.landmark_frame;
      all_shown = shows-append bridge ros t.sent _ ∙ (rw (v.adds, v.base, v.odom, v.pose) refl);
    }

    next_entry-pair_here :
        (a : Action) (os : List (Observation bridge ros)) (rest : List (Entry bridge ros))
        (s : Player bridge ros)
        → s.rawlog_stream ≡ pair a os ∷ rest
        → All (CanSend bridge ros) os
        → LandmarkFrame bridge ros s
        → ((next_entry bridge ros s).1 ≡ ok false)
          × Played s.base_frame s.odom_frame rest
              (minus s.robot_pose (movement a))
              (shows bridge ros s.sent
                ++ shown_of_all bridge ros s.base_frame os
                ++ odometry s.base_frame s.odom_frame (minus s.robot_pose (movement a)) ∷ [])
              (next_entry bridge ros s).0
    unfolding next_entry
    next_entry-pair_here a os rest s read can l =
        let u : Player bridge ros = record s { rawlog_stream = rest } in
        let (done, v) = publish_all-Publishes os u can l in
        rw (read, next_entry, done) (refl, move-Played a u (publish_all bridge ros os u).0 _ v)

    next_entry-alone_here :
        (o : Observation bridge ros) (rest : List (Entry bridge ros)) (s : Player bridge ros)
        → s.rawlog_stream ≡ alone o ∷ rest
        → CanSend bridge ros o
        → LandmarkFrame bridge ros s
        → ((next_entry bridge ros s).1 ≡ err null_pointer)
          × Played s.base_frame s.odom_frame rest s.robot_pose
              (shows bridge ros s.sent ++ shown_of bridge ros s.base_frame o)
              (next_entry bridge ros s).0
    unfolding next_entry
    next_entry-alone_here o rest s read can l =
        let u : Player bridge ros = record s { rawlog_stream = rest } in
        let (done, v) = publish_single_observation-Publishes bridge ros labelled o u can l in
        rw (read, next_entry, done)
          (
            refl,
            record {
              base_frame = v.base;
              odom_frame = v.odom;
              stream_left = v.stream;
              robot_pose = v.pose;
              landmark_frame = v.landmark_frame;
              all_shown = v.adds;
            },
          )

    pub next_entry-pair :
        (a : Action) (os : List (Observation bridge ros)) (rest : List (Entry bridge ros))
        (base odom : String) (pose : Pdf) (shown : List (Shown bridge ros)) (s : Player bridge ros)
        → All (CanSend bridge ros) os
        → Played base odom (pair a os ∷ rest) pose shown s
        → ((next_entry bridge ros s).1 ≡ ok false)
          × Played base odom rest
              (minus pose (movement a))
              (shown
                ++ shown_of_all bridge ros base os
                ++ odometry base odom (minus pose (movement a)) ∷ [])
              (next_entry bridge ros s).0
    next_entry-pair a os rest base odom pose shown s can v =
        let (done, w) = next_entry-pair_here a os rest s v.stream_left can v.landmark_frame in
        (
          done,
          record {
            base_frame = w.base_frame ∙ v.base_frame;
            odom_frame = w.odom_frame ∙ v.odom_frame;
            stream_left = w.stream_left;
            robot_pose = w.robot_pose ∙ ap (λ q. minus q (movement a)) v.robot_pose;
            landmark_frame = w.landmark_frame;
            all_shown =
                w.all_shown ∙ (rw (v.all_shown, v.base_frame, v.odom_frame, v.robot_pose) refl);
          },
        )

    pub next_entry-alone :
        (o : Observation bridge ros) (rest : List (Entry bridge ros)) (base odom : String)
        (pose : Pdf) (shown : List (Shown bridge ros)) (s : Player bridge ros)
        → CanSend bridge ros o
        → Played base odom (alone o ∷ rest) pose shown s
        → ((next_entry bridge ros s).1 ≡ err null_pointer)
          × Played base odom rest pose
              (shown ++ shown_of bridge ros base o)
              (next_entry bridge ros s).0
    next_entry-alone o rest base odom pose shown s can v =
        let (done, w) = next_entry-alone_here o rest s v.stream_left can v.landmark_frame in
        (
          done,
          record {
            base_frame = w.base_frame ∙ v.base_frame;
            odom_frame = w.odom_frame ∙ v.odom_frame;
            stream_left = w.stream_left;
            robot_pose = w.robot_pose ∙ v.robot_pose;
            landmark_frame = w.landmark_frame;
            all_shown = w.all_shown ∙ (rw (v.all_shown, v.base_frame) refl);
          },
        )

  -- The end of the rawlog.
  pub next_entry-end :
      (s : Player bridge ros)
      → s.rawlog_stream ≡ []
      → ((next_entry bridge ros s).1 ≡ ok true) × ((next_entry bridge ros s).0 ≡ s)
  unfolding next_entry
  next_entry-end s read = (rw (read, next_entry) refl, simp (read, next_entry) refl)
