-- ===== src/Examples/PipelineWindow.antt =====
-- mrpt_pointcloud_pipeline on three scans of two lasers.
use Prim.Native.Nat.{ℕ, ◌+◌, ◌-◌, ◌≤◌}
use mrpt_navigation.Base.{true, some, List, [], ◌∷◌, ◌≡◌, refl}
use mrpt_navigation.Base.StdMap.{nat_key}
use mrpt_navigation.Base.StdMultimap.{IsOrdered}
use mrpt_navigation.Pipeline.Local.{
  Mrpt, found, other_exception, Node, ObsList, one_per_topic, on_do_publish,
}
use mrpt_navigation.Pipeline.Local.History.{
  Event, scan_received, cloud_received, timer, on_events, in_window, on_do_publish-history,
}
use mrpt_navigation.Pipeline.Local.Topics.{oldest, count, one_per_topic-oldest}
use mrpt_navigation.Pipeline.Local.Poses.{reposed, on_do_publish-reposed}

-- A scan is its time; a map is the number of scans that it has seen.
abbrev pub rig : Mrpt
rig = record {
  Time = ℕ;
  time_key = nat_key;
  minus = λ a b. a - b;
  Pose = ℕ;
  relative = λ a b. a - b;
  Obs = ℕ;
  Scan = ℕ;
  scan_time = λ s. s;
  obs_of_scan = λ s p. s;
  Cloud = ℕ;
  cloud_time = λ c. c;
  obs_of_cloud = λ c p. c;
  Map = ℕ;
  empty_map = 0;
  generate = λ o m. m + 1;
  per_obs_filter = λ m. m;
  final_filter = λ m. m;
  Points = ℕ;
  point_layer = λ m l. some m;
  Simple = ℕ;
  as_simple = λ p. some p;
}

abbrev pub idle : Node rig
idle = record {
  one_observation_per_topic = true;
  frameid_robot = "base_link";
  time_window = 20;
  hist_obs = [];
  layer2topic = record { layer = "output"; topic = "local_map_pointcloud"; subscriptions = 1 } ∷ [];
}

abbrev pub morning : List (Event rig)
morning =
    scan_received 100 "scan" (found 0) (found 1)
    ∷ scan_received 130 "scan" (found 0) (found 2)
    ∷ timer (found 2)
    ∷ cloud_received 125 "lidar" (found 0) (found 2)
    ∷ scan_received 140 "scan" other_exception (found 2)
    ∷ []

on_do_publish-history_example :
    let n = on_events rig morning idle in
    IsOrdered ⦃o = nat_key⦄ n.hist_obs
    × ((on_do_publish rig (found 3) n).0.hist_obs ≡ in_window rig n.time_window n.hist_obs)
on_do_publish-history_example = on_do_publish-history rig morning idle (found 3) refl

abbrev recent : ObsList rig
recent =
    (125, record { source_topic = "lidar"; observation = 125; robot_pose = 2 })
    ∷ (130, record { source_topic = "scan"; observation = 130; robot_pose = 2 })
    ∷ (135, record { source_topic = "scan"; observation = 135; robot_pose = 3 })
    ∷ []

one_per_topic-oldest_example :
    (oldest rig "scan" (one_per_topic rig recent) ≡ oldest rig "scan" recent)
    × (count rig "scan" (one_per_topic rig recent) ≤ 1)
one_per_topic-oldest_example = one_per_topic-oldest rig recent "scan"

abbrev loaded : Node rig
loaded = record idle { hist_obs = recent }

on_do_publish-reposed_example :
    ((on_do_publish rig (found 9) (record loaded { hist_obs = reposed rig (λ p. p + 5) recent })).1
      ≡ (on_do_publish rig (found 3) loaded).1)
    × ((on_do_publish rig
          (found 9)
          (record loaded { hist_obs = reposed rig (λ p. p + 5) recent })).2
        ≡ (on_do_publish rig (found 3) loaded).2)
on_do_publish-reposed_example = on_do_publish-reposed rig (λ p. p + 5) 9 3 loaded
