-- ===== src/Bridge/Graphs/RoundTrip.antt =====
-- A graph of poses comes back from its message.
use mrpt_navigation.Base.{ℕ, Bool, false, List, [], ◌∷◌, map, ◌≡◌, refl, ap, ◌∙◌, if◌then◌else◌}
use mrpt_navigation.Base.StdMap.{nat_key, insert, insert_all, IsSorted, insert_all_self}
use mrpt_navigation.Bridge.Graphs.{
  Bridge, Graph, Annotated, NodeIdWithPose, NetworkOfPoses, node_msg, annotated_msg, constraint_msg,
  to_ros, to_ros_na, insert_nodes, insert_edges, node_of, annotated_of, from_ros, from_ros_na,
}

module _ (bridge : Bridge) where
  open bridge use {
    Pose, PoseMsg, to_pose_msg, of_pose_msg, Density, DensityMsg, inverse, to_density_msg,
    of_density_msg, insert_edge,
  }

  -- Edges put one by one, in their order.
  abbrev pub add_edges :
      List ((ℕ × ℕ) × Density) → List ((ℕ × ℕ) × Density) → List ((ℕ × ℕ) × Density)
  add_edges [] es = es
  add_edges (e ∷ more) es = add_edges more (insert_edge e.0 e.1 es)

  -- The edges with the direction that a graph without inverse poses has.
  abbrev pub direct : Bool → List ((ℕ × ℕ) × Density) → List ((ℕ × ℕ) × Density)
  direct stored_inverse es = map (λ e. (e.0, if stored_inverse then inverse e.1 else e.1)) es

  insert_nodes-msgs :
      {Node : Type 0} (node : NodeIdWithPose bridge → Node) (msg : ℕ × Node → NodeIdWithPose bridge)
      → ((n : ℕ × Node) → ((msg n).node_id ≡ n.0) × (node (msg n) ≡ n.1))
      → (ns old : List (ℕ × Node)) → insert_nodes bridge node (map msg ns) old ≡ insert_all ns old
  unfolding insert_nodes
  insert_nodes-msgs node msg back [] old = refl
  insert_nodes-msgs node msg back (n ∷ ns) old =
      insert_nodes-msgs node msg back ns (insert (msg n).node_id (node (msg n)) old)
      ∙ ap (λ k. insert_all ns (insert k (node (msg n)) old)) (back n).0
      ∙ ap (λ v. insert_all ns (insert n.0 v old)) (back n).1

  insert_edges-msgs :
      ((d : Density) → of_density_msg (to_density_msg d) ≡ d)
      → (stored_inverse : Bool) (es old : List ((ℕ × ℕ) × Density))
      → insert_edges bridge (map (constraint_msg bridge stored_inverse) es) old
        ≡ add_edges (direct stored_inverse es) old
  unfolding insert_edges constraint_msg
  insert_edges-msgs back b [] old = refl
  insert_edges-msgs back b (e ∷ es) old =
      insert_edges-msgs back b es _
      ∙ ap (λ d. add_edges (direct b es) (insert_edge e.0 d old))
          (back (if b then inverse e.1 else e.1))

  -- What comes back: the graph with its edges turned, if it stores inverse poses.
  abbrev pub returned : {Node : Type 0} → Graph bridge Node → Graph bridge Node
  returned g = record g {
    edges = direct g.edges_store_inverse_poses g.edges;
    edges_store_inverse_poses = false;
  }

  abbrev pub no_message : NetworkOfPoses bridge
  no_message = record { root = 0; nodes = []; constraints = [] }

  abbrev pub no_graph : {Node : Type 0} → Graph bridge Node
  no_graph = record { root = 0; nodes = []; edges = []; edges_store_inverse_poses = false }

  module _ (pose_back : (p : Pose) → of_pose_msg (to_pose_msg p) ≡ p)
      (density_back : (d : Density) → of_density_msg (to_density_msg d) ≡ d) where
    -- A graph written to an empty message and read into an empty graph comes back, with every edge
    -- inverted if it stored inverse poses, given that poses and densities survive the trip, that
    -- its nodes are in the order of their ids, and that its edges stand as insertion leaves them.
    pub from_ros-to_ros :
        (g : Graph bridge Pose)
        → IsSorted g.nodes
        → add_edges (direct g.edges_store_inverse_poses g.edges) []
          ≡ direct g.edges_store_inverse_poses g.edges
        → from_ros bridge (to_ros bridge g no_message) no_graph ≡ returned g
    unfolding from_ros to_ros node_msg node_of
    from_ros-to_ros g s e i = record {
      root = g.root;
      nodes =
          (insert_nodes-msgs (node_of bridge) (node_msg bridge) (λ n. (refl, pose_back n.1)) g.nodes
                []
              ∙ insert_all_self g.nodes s)
            i;
      edges = (insert_edges-msgs density_back g.edges_store_inverse_poses g.edges [] ∙ e) i;
      edges_store_inverse_poses = false;
    }

    -- The same for graphs whose nodes carry the names of an agent.
    pub from_ros_na-to_ros_na :
        (g : Graph bridge (Annotated bridge))
        → IsSorted g.nodes
        → add_edges (direct g.edges_store_inverse_poses g.edges) []
          ≡ direct g.edges_store_inverse_poses g.edges
        → from_ros_na bridge (to_ros_na bridge g no_message) no_graph ≡ returned g
    unfolding from_ros_na to_ros_na annotated_msg annotated_of
    from_ros_na-to_ros_na g s e i = record {
      root = g.root;
      nodes =
          (insert_nodes-msgs (annotated_of bridge) (annotated_msg bridge)
                (λ n. (refl, λ j. record n.1 { pose = pose_back n.1.pose j })) g.nodes []
              ∙ insert_all_self g.nodes s)
            i;
      edges = (insert_edges-msgs density_back g.edges_store_inverse_poses g.edges [] ∙ e) i;
      edges_store_inverse_poses = false;
    }
