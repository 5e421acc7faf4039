-- ===== src/PfNode/Startup/CreatedNodes.antt =====
-- What a localization node that has been created is like.
use Prim.Native.String.{String}
use mrpt_navigation.Base.{
  true, false, some, List, ◌++◌, Result, ok, err, ◌≡◌, refl, inl, inr, Result-cases, Bool-cases,
  is_empty,
}
use mrpt_navigation.Pf.Library.{Mrpt}
use mrpt_navigation.Pf.State.{Core}
use mrpt_navigation.PfNode.Library.{Ros}
use mrpt_navigation.PfNode.Parameters.{Numbers, ParameterValue, empty}
use mrpt_navigation.PfNode.Parameters.Paths.{params_block-ends}
use mrpt_navigation.PfNode.Startup.{
  NodeParameters, default_parameters, Files, with_block, reload_params_from_ros, Created, create,
  new_localization_node,
}

module _ (mrpt : Mrpt) (ros : Ros mrpt) (numbers : Numbers) (files : Files mrpt ros numbers) where
  open mrpt use {Real, ratio}
  open ros use {less}
  open files use {of_block, tokenize}

  -- A result that, if it is no exception, is a node with a sensor and a tolerance above 1 ms.
  abbrev pub IsSensing : Result (Created mrpt ros numbers files) → Type 0
  IsSensing (err e) = Unit
  IsSensing (ok n) =
      (is_empty
          (tokenize n.params.topic_sensors_2d_scan ++ tokenize n.params.topic_sensors_point_clouds)
        ≡ false)
      × (less (ratio 1 1000) n.params.transform_tolerance ≡ true)

  create-IsSensing :
      (c : Core mrpt) (p : NodeParameters mrpt ros) → IsSensing (create mrpt ros numbers files c p)
  unfolding create
  create-IsSensing c p =
      elim (Bool-cases
        (is_empty (tokenize p.topic_sensors_2d_scan ++ tokenize p.topic_sensors_point_clouds))) [
          | inl nothing ↦ rw (nothing, create) tt
          | inr some_sensor ↦ elim (Bool-cases (less (ratio 1 1000) p.transform_tolerance)) [
            | inr low ↦ rw (some_sensor, create, low) tt
            | inl high ↦ rw (some_sensor, create, high) (some_sensor, high)
          ]
        ]

  reload_params_from_ros-ends :
      (ps : List (String × ParameterValue numbers)) (c : Core mrpt) (p : NodeParameters mrpt ros)
      → (r : Result (Core mrpt × NodeParameters mrpt ros)) × (reload_params_from_ros mrpt ros
            numbers files ps c p
          ≡ some r)
  unfolding reload_params_from_ros
  reload_params_from_ros-ends ps c p =
      let (r, nested) = params_block-ends numbers ps empty in
      elim (Result-cases r) [
        | inl (block, done) ↦ (
          with_block mrpt ros numbers files c p (of_block block),
          rw (nested, reload_params_from_ros, done) refl,
        )
        | inr (e, fails) ↦ (err e, rw (nested, reload_params_from_ros, fails) refl)
      ]

  -- Whatever the parameters, the constructor comes to an end; unless it throws, the node has at
  -- least one topic of scans or clouds, and a tolerance of transforms above 1 ms.
  pub new_localization_node-IsSensing :
      (ps : List (String × ParameterValue numbers)) (c : Core mrpt)
      → (r : Result (Created mrpt ros numbers files)) × (new_localization_node mrpt ros numbers
            files ps c
          ≡ some r)
        × IsSensing r
  unfolding new_localization_node
  new_localization_node-IsSensing ps c =
      let (r, loaded) = reload_params_from_ros-ends ps c (default_parameters mrpt ros) in
      elim (Result-cases r) [
        | inl (cp, done) ↦ (
          create mrpt ros numbers files cp.0 cp.1,
          rw (loaded, new_localization_node, done) refl,
          create-IsSensing cp.0 cp.1,
        )
        | inr (e, fails) ↦ (err e, rw (loaded, new_localization_node, fails) refl, tt)
      ]
