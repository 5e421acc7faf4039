-- ===== src/Examples/MissionObstacles.antt =====
-- The local map of the pipeline's example as the obstacles of the navigation's example.
use Prim.Native.Nat.{ℕ}
use mrpt_navigation.Base.{true, none, some, ok, ◌≡◌, refl}
use mrpt_navigation.Base.StdMap.{nat_key}
use mrpt_navigation.Base.StdMultimap.{last_key}
use mrpt_navigation.Pipeline.Local.{found}
use mrpt_navigation.Pipeline.Local.History.{on_events}
use mrpt_navigation.Pipeline.Local.Maps.{used_observations, local_map, all_there}
use mrpt_navigation.Nav.Node.{sense_obstacles}
use mrpt_navigation.Mission.Obstacles.{publish_obstacles}
use mrpt_navigation.Mission.Obstacles.Sensed.{cloud_on, points_or, obstacles-sensed}
use mrpt_navigation.Examples.PipelineWindow.{rig, idle, morning}
use mrpt_navigation.Examples.NavStates.{world, robot}

abbrev message_of : ℕ → ℕ
message_of s = s

obstacles-sensed_example :
    let p = on_events rig morning idle in
    let (_, n', outcome) =
      publish_obstacles rig world message_of "local_map_pointcloud" (found 3) p robot in
    (last_key ⦃o = nat_key⦄ (used_observations rig p) ≡ none → (n' ≡ robot) × (outcome ≡ ok tt))
    × ((last : ℕ)
        → last_key ⦃o = nat_key⦄ (used_observations rig p) ≡ some last
        → all_there rig (local_map rig p) p.layer2topic ≡ true
        → (outcome ≡ ok tt)
          × (sense_obstacles world n'
              ≡ points_or rig world message_of
                  (cloud_on rig world message_of "local_map_pointcloud"
                    (local_map rig p)
                    p.layer2topic)
                  0))
obstacles-sensed_example =
    obstacles-sensed rig world message_of morning idle 3 "local_map_pointcloud" robot refl
