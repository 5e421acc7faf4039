-- ===== src/Pf/Api.antt =====
-- The public methods of `PFLocalizationCore`, mrpt_pf_localization_core.cpp, and the calls that a
-- client can make.
pub mod Histories
pub mod Poisoned
use Prim.Native.String.{String}
use mrpt_navigation.Base.{
  Bool, true, false, ◌&&◌, Option, none, some, List, [], ◌∷◌, map, Result, ok, err, Exception,
  ◌>>=◌, assertion_failed, file_not_found, if◌then◌else◌, has_value,
}
use mrpt_navigation.Pf.Library.{Mrpt}
use mrpt_navigation.Pf.Parameters.{Parameters, Gaussian, MultiMap}
use mrpt_navigation.Pf.State.{
  FsmState, uninitialized, to_be_initialized, running, Core, Engine, Particles, new_state,
}
use mrpt_navigation.Pf.Loading.{load_from}
use mrpt_navigation.Pf.Queue.{on_observation}
use mrpt_navigation.Pf.Initialize.{on_state_uninitialized, on_state_to_be_initialized}
use mrpt_navigation.Pf.Running.{on_state_running}

module _ (mrpt : Mrpt) where
  open mrpt use {
    Node, has, at, is_empty_node, icp_from, obs_filter_from, Pose3, Geo, Label, Layer, is_points,
    is_grid, set_point_likelihood, set_grid_likelihood, have_mola, Obs,
  }

  -- `if (state_.fsm_state == State::RUNNING)` the state goes back to TO_BE_INITIALIZED.
  restarted : FsmState → FsmState
  restarted running = to_be_initialized
  restarted s = s

  pub relocalize_here : Gaussian mrpt → Core mrpt → Core mrpt
  unfolding restarted
  relocalize_here pose c = record c {
    params = record (c.params) { initial_pose = some pose };
    state = record (c.state) { fsm_state = restarted c.state.fsm_state };
  }

  pub reset : Core mrpt → Core mrpt
  reset c = record c { state = new_state mrpt }

  pub set_fake_odometry_increment : Pose3 → Core mrpt → Core mrpt
  set_fake_odometry_increment pose c = record c {
    state = record (c.state) { next_fake_odometry_incr_pose = some pose };
  }

  -- The likelihood options of one layer.
  pub override_layer : Parameters mrpt → Layer → Layer
  override_layer params m =
      if is_points m && has_value params.override_likelihood_point_maps
      then elim params.override_likelihood_point_maps [
        | none ↦ m
        | some o ↦ set_point_likelihood o m
      ]
      else if is_grid m && has_value params.override_likelihood_gridmaps
      then elim params.override_likelihood_gridmaps [ none ↦ m | some o ↦ set_grid_likelihood o m ]
      else m

  pub override_layers : Parameters mrpt → List (Option Layer) → Result (List (Option Layer))
  unfolding override_layer
  override_layers params [] = ok []
  override_layers params (none ∷ ms) = err assertion_failed
  override_layers params (some m ∷ ms) =
      override_layers params ms >>= λ done. ok (some (override_layer params m) ∷ done)

  -- A null layer throws before any parameter is set.
  pub set_map_from_metric_map :
      MultiMap mrpt → Option Geo → List Label → Core mrpt → Core mrpt × Result (Unit {0})
  set_map_from_metric_map mm geo names c = elim (override_layers c.params mm.maps) [
    | err e ↦ (c, err e)
    | ok maps ↦ (
      record c {
        params = record (c.params) {
          metric_map = some (record { maps = maps });
          georeferencing = geo;
          metric_map_layer_names = names;
        };
      },
      ok tt,
    )
  ]

  -- The overload for `mp2p_icp::metric_map_t`, its layers by name.
  unfoldable pub set_map_from_layers :
      List (Label × Option Layer) → Option Geo → Core mrpt → Core mrpt × Result (Unit {0})
  set_map_from_layers layers geo c =
      set_map_from_metric_map (record { maps = map (λ p. p.1) layers }) geo (map (λ p. p.0) layers)
        c

  -- Whether the two files are there, and the map that MRPT loads from them.
  pub set_map_from_simple_map :
      Bool → Bool → Option (MultiMap mrpt) → Core mrpt → Core mrpt × Result Bool
  set_map_from_simple_map ini_exists map_exists loaded c =
      if ini_exists && map_exists
      then elim loaded [
        | none ↦ (c, ok false)
        | some mm ↦
            let (c', r) = set_map_from_metric_map mm none [] c in
            (c', elim r [ ok _ ↦ ok true | err e ↦ err e ])
      ]
      else (c, err file_not_found)

  pipeline_filter : Node → Option Node
  pipeline_filter pipeline =
      if has pipeline "relocalization_observation_pipeline"
      then at pipeline "relocalization_observation_pipeline"
      else none

  -- The ICP of the relocalization pipeline, in a build that has it and if one is given.
  unfoldable pub with_pipeline : Node → Parameters mrpt → Parameters mrpt
  unfolding pipeline_filter
  with_pipeline pipeline params =
      if have_mola
      then (if is_empty_node pipeline then params else record params {
        relocalization_icp = some (icp_from pipeline params.relocalization.icp_sigma);
        relocalization_obs_filter = elim (pipeline_filter pipeline) [
          | none ↦ params.relocalization_obs_filter
          | some n ↦ obs_filter_from n
        ];
      })
      else params

  -- An exception leaves no core: the parameters may be set in part, and the node's constructor,
  -- which alone calls this, dies.
  unfoldable pub init_from_yaml : Node → Node → Core mrpt → Result (Core mrpt)
  unfolding with_pipeline
  init_from_yaml pf_params pipeline c = elim (load_from mrpt pf_params c.params) [
    | err e ↦ err e
    | ok params ↦ ok (record c { params = with_pipeline pipeline params })
  ]

  -- A call of the API, once `init_from_yaml` has loaded the parameters, which a client does once.
  pub data Call : Type 0 where
    observes : Option Obs → Call
    steps : Call
    resets : Call
    relocalizes : Gaussian mrpt → Call
    sets_map : MultiMap mrpt → Option Geo → List Label → Call
    sets_simple_map : Bool → Bool → Option (MultiMap mrpt) → Call
    sets_fake_odometry : Pose3 → Call

  module _ (engine : Engine mrpt) where
    -- The `switch` of `step`.
    dispatch : FsmState → Core mrpt → Core mrpt × Result (Unit {0})
    dispatch uninitialized c = (on_state_uninitialized mrpt c, ok tt)
    dispatch to_be_initialized c = on_state_to_be_initialized mrpt engine c
    dispatch running c = on_state_running mrpt engine c

    pub step : Core mrpt → Core mrpt × Result (Unit {0})
    unfolding dispatch
    step c = dispatch c.state.fsm_state c

    -- The core after a call, whether it threw or not.
    unfoldable pub after : Call → Core mrpt → Core mrpt
    after (observes o) c = on_observation mrpt c o
    after steps c = (step c).0
    after resets c = reset c
    after (relocalizes pose) c = relocalize_here pose c
    after (sets_map mm geo names) c = (set_map_from_metric_map mm geo names c).0
    after (sets_simple_map ini_exists map_exists loaded) c =
        (set_map_from_simple_map ini_exists map_exists loaded c).0
    after (sets_fake_odometry pose) c = set_fake_odometry_increment pose c

    unfoldable pub after_all : List Call → Core mrpt → Core mrpt
    after_all [] c = c
    after_all (call ∷ calls) c = after_all calls (after call c)
