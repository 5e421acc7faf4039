-- ===== src/Mission/Obstacles.antt =====
-- The local maps of mrpt_pointcloud_pipeline as the obstacles of mrpt_reactivenav2d: the clouds that
-- `on_do_publish` publishes are delivered to `on_local_obstacles`.
pub mod Sensed
use Prim.Native.String.{String}
use mrpt_navigation.Base.{List, [], ◌∷◌, Result, same_text, if◌then◌else◌}
use mrpt_navigation.Pipeline.Local as Local
use mrpt_navigation.Pipeline.Local.{Published, Transform, on_do_publish}
use mrpt_navigation.Nav.Library.{Mrpt}
use mrpt_navigation.Nav.Node.{Node}
use mrpt_navigation.Nav.Commands.{on_local_obstacles}

module _ (rig : Local.Mrpt) (mrpt : Mrpt) (message_of : rig.Simple → mrpt.Cloud) where
  -- The clouds on the topic of the navigation node, in the order of their publication.
  pub deliver_clouds : String → List (Published rig) → Node mrpt → Node mrpt
  deliver_clouds topic [] n = n
  deliver_clouds topic (p ∷ ps) n =
      deliver_clouds topic ps
        (if same_text p.topic topic then on_local_obstacles mrpt (message_of p.points) n else n)

  delivered :
      String
      → Node mrpt
      → Local.Node rig × List (Published rig) × Result (Unit {0})
      → Local.Node rig × Node mrpt × Result (Unit {0})
  unfolding deliver_clouds
  delivered topic n (pipeline, clouds, outcome) = (pipeline, deliver_clouds topic clouds n, outcome)

  -- The timer of the pipeline, and then the navigation node.
  pub publish_obstacles :
      String
      → Transform rig.Pose
      → Local.Node rig
      → Node mrpt
      → Local.Node rig × Node mrpt × Result (Unit {0})
  unfolding delivered
  publish_obstacles topic tf pipeline n = delivered topic n (on_do_publish rig tf pipeline)
