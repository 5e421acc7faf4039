-- ===== src/PfNode/Publish.antt =====
-- What `PFLocalizationNode` publishes: particles, the pose, and the transform from map to odom.
use mrpt_navigation.Base.{Bool, Option, none, some, [], ◌∷◌, ◌++◌, ok, if◌then◌else◌, value_or}
use mrpt_navigation.Pf.Library.{Mrpt}
use mrpt_navigation.PfNode.Library.{Ros}
use mrpt_navigation.PfNode.Node.{Node, Outcome}

module _ (mrpt : Mrpt) (ros : Ros mrpt) where
  open mrpt use {ratio, times, Pose3, identity3}
  open ros use {after_seconds, mean_of, compose3, gaussian_fit}

  -- Whether each of the two topics has subscribers.
  unfoldable pub publish_particles : Bool → Bool → Node mrpt ros → Node mrpt ros
  publish_particles particles_heard pose_heard n = elim n.core.state.last_result [
    | none ↦ n
    | some parts ↦ elim n.last_sensor_stamp [
      | none ↦ n
      | some stamp ↦ record n {
        particles = if particles_heard then n.particles ++ (stamp, parts) ∷ [] else n.particles;
        poses = if pose_heard then n.poses ++ (stamp, gaussian_fit parts) ∷ [] else n.poses;
      }
    ]
  ]

  -- With no transform from base to odom, the identity stands for it.
  unfoldable pub update_tf_pub_data : Option Pose3 → Node mrpt ros → Node mrpt ros
  update_tf_pub_data base_to_odom n = elim n.core.state.last_result [
    | none ↦ n
    | some parts ↦ elim n.last_sensor_stamp [
      | none ↦ n
      | some stamp ↦ record n {
        tf_map_odom_to_publish = some (record {
          pose = compose3 (mean_of parts) (value_or base_to_odom identity3);
          stamp = after_seconds stamp n.transform_tolerance;
        });
      }
    ]
  ]

  -- The stamp grows, so that the transform stays valid until a better one is found.
  unfoldable pub publish_tf : Node mrpt ros → Outcome mrpt ros
  publish_tf n = elim n.tf_map_odom_to_publish [
    | none ↦ (n, ok tt)
    | some tf ↦ (
      record n {
        transforms = n.transforms ++ tf ∷ [];
        tf_map_odom_to_publish = some (record tf {
          stamp = after_seconds tf.stamp (times (ratio 1 2) n.transform_tolerance);
        });
      },
      ok tt,
    )
  ]
