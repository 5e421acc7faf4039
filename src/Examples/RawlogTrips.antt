-- ===== src/Examples/RawlogTrips.antt =====
-- A rawlog of two pairs, one with a scan and a landmark, and one with an observation alone after it.
use Prim.Native.Nat.{ℕ, ◌+◌, ◌*◌}
use Prim.Native.String.{String}
use mrpt_navigation.Base.{
  true, false, none, some, List, [], ◌∷◌, ◌++◌, ok, err, null_pointer, refl, arith,
}
use mrpt_navigation.Examples.BridgeTrips.{simple, seen, heard, bearing_message, beacon_message}
use mrpt_navigation.RawlogPlay.Library.{
  Rosbridge, scan, beacons, landmarks, unsupported, Entry, alone,
}
use mrpt_navigation.RawlogPlay.Observations.{Player}
use mrpt_navigation.RawlogPlay.Observations.Shown.{shown_of}
use mrpt_navigation.RawlogPlay.Node.{Parameters, Outside, run_main}
use mrpt_navigation.RawlogPlay.Node.Rounds.{Pairs, entries, shown_pairs}
use mrpt_navigation.RawlogPlay.Node.Ends.{Ended, run_main-ends, run_main-alone}

-- A scan is its label and its pose; what is taken off a pose is counted.
abbrev ros : Rosbridge simple
ros = record {
  Scan = String × ℕ;
  scan_label = λ o. o.0;
  scan_pose = λ o. o.1;
  ScanContent = ℕ;
  no_content = 0;
  scan_content = λ o. o.1;
  laser_to_ros = λ o m. record m { frame_id = o.0; content = o.1 };
  Unsupported = ℕ;
  Transform = ℕ;
  to_transform = λ p. p;
  inverse = λ t. t + 100;
  Pdf = ℕ;
  no_pdf = 0;
  minus = λ p d. p * 10 + d;
  mean = λ p. p;
  PdfMsg = ℕ;
  no_pdf_msg = 0;
  to_pdf_msg = λ p. p;
  Action = ℕ;
  movement = λ a. a;
  no_time = 0;
  now = λ n. n;
  soon = λ t. t + 1;
}

abbrev pairs : Pairs simple ros
pairs = (3, scan ("", 7) ∷ landmarks seen ∷ []) ∷ (4, beacons heard ∷ unsupported 8 ∷ []) ∷ []

abbrev player : Player simple ros
player = record {
  odom_frame = "";
  base_frame = "";
  rawlog_stream = [];
  robot_pose = 0;
  msg_laser = record { stamp = 0; frame_id = ""; content = 0 };
  msg_beacon = beacon_message;
  msg_landmark = bearing_message;
  msg_odom = record { stamp = 0; frame_id = ""; child_frame_id = ""; pose = 0 };
  loop_count = 0;
  clock_reads = 0;
  sent = [];
}

abbrev parameters : Parameters simple ros
parameters = record {
  rawlog_file = "log";
  odom_frame = "odom";
  base_frame = "base_link";
  parameter_update_skip = 1;
  debug = true;
  is_gaussian = false;
  gaussian_model = record { a1 = 0; a2 = 0; a3 = 0; a4 = 0; min_std_xy = 0; min_std_phi = 0 };
}

abbrev outside : List (Entry simple ros) → Outside simple ros
outside log = record { debug_param = λ n. none; reconfigured = λ n. []; file = λ name. some log }

run_main-ends_example :
    Ended simple ros true
      (ok tt)
      34
      (shown_pairs simple ros "base_link" "odom" 0 pairs)
      (run_main simple ros 5 (outside (entries simple ros pairs [])) parameters player)
run_main-ends_example =
    run_main-ends simple ros (λ o m. (refl, refl)) pairs 2 (outside (entries simple ros pairs []))
      parameters player refl refl refl (omega arith) ((tt, (refl, tt)), ((refl, (tt, tt)), tt))

run_main-alone_example :
    Ended simple ros false
      (err null_pointer)
      34
      (shown_pairs simple ros "base_link" "odom" 0 pairs
        ++ shown_of simple ros "base_link" (scan ("front", 5)))
      (run_main simple ros 4
        (outside (entries simple ros pairs (alone (scan ("front", 5)) ∷ alone (scan ("", 6)) ∷ [])))
        parameters
        player)
run_main-alone_example =
    run_main-alone simple ros (λ o m. (refl, refl)) pairs (scan ("front", 5))
      (alone (scan ("", 6)) ∷ []) 1
      (outside (entries simple ros pairs (alone (scan ("front", 5)) ∷ alone (scan ("", 6)) ∷ [])))
      parameters player refl refl refl (omega arith) ((tt, (refl, tt)), ((refl, (tt, tt)), tt)) tt
