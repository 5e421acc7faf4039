-- ===== src/Bridge/Graphs.antt =====
-- network_of_poses.cpp: graphs of poses and `mrpt_msgs::msg::NetworkOfPoses`. Poses, their
-- densities and the conversions of mrpt::ros2bridge are parameters, and so is `insert` of the
-- edges, whose container MRPT chooses.
pub mod RoundTrip
use Prim.Native.String.{String}
use mrpt_navigation.Base.{
  ℕ, Bool, true, false, List, [], ◌∷◌, ◌++◌, map, Result, ok, err, not_implemented, if◌then◌else◌,
}
use mrpt_navigation.Base.StdMap.{nat_key, insert}

pub record Bridge : Type 1 where
  pub Pose : Type 0
  pub PoseMsg : Type 0
  pub to_pose_msg : Pose → PoseMsg
  pub of_pose_msg : PoseMsg → Pose
  -- `CPosePDFGaussianInf`
  pub Density : Type 0
  pub DensityMsg : Type 0
  pub inverse : Density → Density
  pub to_density_msg : Density → DensityMsg
  pub of_density_msg : DensityMsg → Density
  pub insert_edge : ℕ × ℕ → Density → List ((ℕ × ℕ) × Density) → List ((ℕ × ℕ) × Density)

module _ (bridge : Bridge) where
  open bridge use {
    Pose, PoseMsg, to_pose_msg, of_pose_msg, Density, DensityMsg, inverse, to_density_msg,
    of_density_msg, insert_edge,
  }

  -- `CNetworkOfPoses2DInf` and `CNetworkOfPoses2DInf_NA`, by the type of a node.
  pub record Graph (Node : Type 0) : Type 0 where
    pub root : ℕ
    pub nodes : List (ℕ × Node)
    pub edges : List ((ℕ × ℕ) × Density)
    pub edges_store_inverse_poses : Bool

  -- The node of an annotated graph.
  pub record Annotated : Type 0 where
    pub pose : Pose
    pub agent_id_str : String
    pub node_id_loc : ℕ

  pub record NodeIdWithPose : Type 0 where
    pub node_id : ℕ
    pub pose : PoseMsg
    pub str_id : String
    pub node_id_loc : ℕ

  pub record GraphConstraint : Type 0 where
    pub node_id_from : ℕ
    pub node_id_to : ℕ
    pub constraint : DensityMsg

  pub record NetworkOfPoses : Type 0 where
    pub root : ℕ
    pub nodes : List NodeIdWithPose
    pub constraints : List GraphConstraint

  node_msg : ℕ × Pose → NodeIdWithPose
  node_msg n = record { node_id = n.0; pose = to_pose_msg n.1; str_id = ""; node_id_loc = 0 }

  annotated_msg : ℕ × Annotated → NodeIdWithPose
  annotated_msg n = record {
    node_id = n.0;
    pose = to_pose_msg n.1.pose;
    str_id = n.1.agent_id_str;
    node_id_loc = n.1.node_id_loc;
  }

  pub constraint_msg : Bool → (ℕ × ℕ) × Density → GraphConstraint
  constraint_msg stored_inverse e = record {
    node_id_from = e.0.0;
    node_id_to = e.0.1;
    constraint = to_density_msg (if stored_inverse then inverse e.1 else e.1);
  }

  -- `toROS` for `CNetworkOfPoses2DInf`, into a message that may hold something already.
  pub to_ros : Graph Pose → NetworkOfPoses → NetworkOfPoses
  unfolding node_msg constraint_msg
  to_ros g m = record {
    root = g.root;
    nodes = m.nodes ++ map node_msg g.nodes;
    constraints = m.constraints ++ map (constraint_msg g.edges_store_inverse_poses) g.edges;
  }

  -- `toROS` for `CNetworkOfPoses2DInf_NA`
  pub to_ros_na : Graph Annotated → NetworkOfPoses → NetworkOfPoses
  unfolding annotated_msg constraint_msg
  to_ros_na g m = record {
    root = g.root;
    nodes = m.nodes ++ map annotated_msg g.nodes;
    constraints = m.constraints ++ map (constraint_msg g.edges_store_inverse_poses) g.edges;
  }

  pub to_ros_3d : {Node : Type 0} → Graph Node → NetworkOfPoses → Result NetworkOfPoses
  to_ros_3d g m = err not_implemented

  -- The loop over `ros_graph.nodes.vec`: `insert` keeps a node that is there.
  insert_nodes :
      {Node : Type 0}
      → (NodeIdWithPose → Node)
      → List NodeIdWithPose
      → List (ℕ × Node)
      → List (ℕ × Node)
  insert_nodes node [] ns = ns
  insert_nodes node (m ∷ ms) ns = insert_nodes node ms (insert m.node_id (node m) ns)

  insert_edges : List GraphConstraint → List ((ℕ × ℕ) × Density) → List ((ℕ × ℕ) × Density)
  insert_edges [] es = es
  insert_edges (c ∷ cs) es =
      insert_edges cs (insert_edge (c.node_id_from, c.node_id_to) (of_density_msg c.constraint) es)

  node_of : NodeIdWithPose → Pose
  node_of m = of_pose_msg m.pose

  annotated_of : NodeIdWithPose → Annotated
  annotated_of m = record {
    pose = of_pose_msg m.pose;
    agent_id_str = m.str_id;
    node_id_loc = m.node_id_loc;
  }

  -- `fromROS` for `CNetworkOfPoses2DInf`, into a graph that may hold something already.
  pub from_ros : NetworkOfPoses → Graph Pose → Graph Pose
  unfolding insert_nodes insert_edges node_of
  from_ros m g = record {
    root = m.root;
    nodes = insert_nodes node_of m.nodes g.nodes;
    edges = insert_edges m.constraints g.edges;
    edges_store_inverse_poses = false;
  }

  -- `fromROS` for `CNetworkOfPoses2DInf_NA`
  pub from_ros_na : NetworkOfPoses → Graph Annotated → Graph Annotated
  unfolding insert_nodes insert_edges annotated_of
  from_ros_na m g = record {
    root = m.root;
    nodes = insert_nodes annotated_of m.nodes g.nodes;
    edges = insert_edges m.constraints g.edges;
    edges_store_inverse_poses = false;
  }

  pub from_ros_3d : {Node : Type 0} → NetworkOfPoses → Graph Node → Result (Graph Node)
  from_ros_3d m g = err not_implemented
