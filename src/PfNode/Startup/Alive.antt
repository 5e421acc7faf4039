-- ===== src/PfNode/Startup/Alive.antt =====
-- A localization node that has been created, and the events that it then handles.
use Prim.Native.String.{String}
use mrpt_navigation.Base.{
  true, false, some, List, ok, err, null_pointer, subst, ◌≡◌, ◌≢◌, sym, ap, ◌∙◌, arith, inl, inr,
  Result-cases, Bool-cases, has_value, none, is_empty, ◌++◌,
}
use mrpt_navigation.Pf.Library.{Mrpt}
use mrpt_navigation.Pf.Parameters.{Parameters}
use mrpt_navigation.Pf.State.{Core, Engine, new_core}
use mrpt_navigation.Pf.Running.Stages.{NeverNull}
use mrpt_navigation.Pf.Api.{init_from_yaml}
use mrpt_navigation.PfNode.Library.{Ros}
use mrpt_navigation.PfNode.Node.{new_node}
use mrpt_navigation.PfNode.Loop.{Event, on_event, on_events}
use mrpt_navigation.PfNode.Loop.Safety.{on_events-no_null}
use mrpt_navigation.PfNode.Parameters.{Numbers, ParameterValue, YamlMap, empty, params_block}
use mrpt_navigation.PfNode.Parameters.Paths.{params_block-ends}
use mrpt_navigation.PfNode.Startup.{
  NodeParameters, default_parameters, load_node_parameters, Files, relocalization_config,
  with_block, reload_params_from_ros, Created, create, new_localization_node,
}

module _ (mrpt : Mrpt) (ros : Ros mrpt) (numbers : Numbers) (files : Files mrpt ros numbers) where
  open mrpt use {Node, Real, ratio, have_mola, is_empty_node}
  open ros use {less}
  open files use {of_block, tokenize}

  create-core :
      (c : Core mrpt) (p : NodeParameters mrpt ros) {n : Created mrpt ros numbers files}
      → create mrpt ros numbers files c p ≡ ok n
      → n.core ≡ c
  unfolding create
  create-core c p h =
      elim (Bool-cases
        (is_empty (tokenize p.topic_sensors_2d_scan ++ tokenize p.topic_sensors_point_clouds))) [
          | inl nothing ↦ cc (rw (nothing, create) at h)
          | inr some_sensor ↦ elim (Bool-cases (less (ratio 1 1000) p.transform_tolerance)) [
            | inr low ↦ cc (rw (some_sensor, create, low) at h)
            | inl high ↦ ground (arith, rw (some_sensor, create, high) at h)
          ]
        ]

  -- What the core of a node that has been created was loaded from.
  pub record LoadedFrom (ps : List (String × ParameterValue numbers)) (c d : Core mrpt)
      : Type 0 where
    pub block : YamlMap numbers
    pub config : Node
    pub nested : params_block numbers ps empty ≡ some (ok block)
    pub pipeline : relocalization_config mrpt ros numbers files (of_block block) ≡ ok config
    pub loaded : init_from_yaml mrpt (of_block block) config c ≡ ok d

  with_block-LoadedFrom :
      (ps : List (String × ParameterValue numbers)) (c : Core mrpt) (block : YamlMap numbers)
      (p : NodeParameters mrpt ros) {core : Core mrpt} {params : NodeParameters mrpt ros}
      → params_block numbers ps empty ≡ some (ok block)
      → with_block mrpt ros numbers files c p (of_block block) ≡ ok (core, params)
      → LoadedFrom ps c core
  unfolding with_block
  with_block-LoadedFrom ps c block p nested h =
      elim (Result-cases (relocalization_config mrpt ros numbers files (of_block block))) [
        | inr (e, fails) ↦ cc (rw (fails, with_block) at h)
        | inl (config, got) ↦ elim (Result-cases (init_from_yaml mrpt (of_block block) config c)) [
          | inr (e, fails) ↦ cc (rw (got, with_block, fails) at h)
          | inl (core, loaded) ↦
              elim (Result-cases (load_node_parameters mrpt ros (of_block block) p)) [
                | inr (e, fails) ↦ cc (rw (got, with_block, loaded, fails) at h)
                | inl (params, read) ↦ record {
                  block = block;
                  config = config;
                  nested = nested;
                  pipeline = got;
                  loaded = cc (loaded, rw (got, with_block, loaded, read) at h);
                }
              ]
        ]
      ]

  new_localization_node-LoadedFrom :
      (ps : List (String × ParameterValue numbers)) (c : Core mrpt)
      {n : Created mrpt ros numbers files}
      → new_localization_node mrpt ros numbers files ps c ≡ some (ok n)
      → LoadedFrom ps c n.core
  unfolding new_localization_node reload_params_from_ros
  new_localization_node-LoadedFrom ps c {n} h =
      let (r, ends) = params_block-ends numbers ps empty in
      elim (Result-cases r) [
        | inr (e, fails) ↦ cc (rw (ends, new_localization_node, fails) at h)
        | inl (block, done) ↦
            elim (Result-cases (
              with_block mrpt ros numbers files c (default_parameters mrpt ros) (of_block block))) [
                | inr (e, fails) ↦ cc (rw (ends, new_localization_node, done, fails) at h)
                | inl ((core, params), read) ↦
                    let created : create mrpt ros numbers files core params ≡ ok n =
                      cc (rw (ends, new_localization_node, done, read) at h) in
                    subst (LoadedFrom ps c) (sym (create-core core params created)) (
                      with_block-LoadedFrom ps c block (default_parameters mrpt ros)
                        (ends ∙ ap some done) read)
              ]
      ]

  module _ (engine : Engine mrpt) where
    -- A node that the constructor creates from parameters of ROS, on a core with an initial pose and
    -- no map, and with a relocalization pipeline in the file that they name if relocalization is built
    -- in: after any messages and timers, no further one dereferences a null pointer, if the filter
    -- library does not and relocalization does not with the ICP that it is given. The core's calls of
    -- `update_gui` are left out, as with the debug window off.
    pub new_localization_node-no_null :
        (laws : NeverNull mrpt engine) (ps : List (String × ParameterValue numbers))
        (params : Parameters mrpt) (es : List (Event mrpt engine ros)) (e : Event mrpt engine ros)
        {n : Created mrpt ros numbers files}
        → has_value params.initial_pose ≡ true
        → params.metric_map ≡ none
        → ((block : YamlMap numbers) (config : Node)
            → params_block numbers ps empty ≡ some (ok block)
            → relocalization_config mrpt ros numbers files (of_block block) ≡ ok config
            → have_mola ≡ true
            → is_empty_node config ≡ false)
        → new_localization_node mrpt ros numbers files ps (new_core mrpt params) ≡ some (ok n)
        → (on_event mrpt engine ros e (
            on_events mrpt engine ros es (new_node mrpt ros n.core n.params.transform_tolerance))).1
          ≢ err null_pointer
    new_localization_node-no_null laws ps params es e {n} posed unmapped given created =
        let from = new_localization_node-LoadedFrom ps (new_core mrpt params) created in
        on_events-no_null mrpt engine ros laws params (of_block from.block) from.config
          n.params.transform_tolerance es e posed unmapped
          (given from.block from.config from.nested from.pipeline) from.loaded
